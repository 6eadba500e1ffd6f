-- ===== src/Security/RekeyControl/Encoding.antt =====
-- `encode` and `decode` of `RekeyControlMessage` in python/gatherlink/security/rekey_control.py. `json`
-- is the UTF-8 text that `json.dumps` gives for the fields of a message, and `parse` reads the fields
-- back from such a text with `json.loads`, or raises.
use gatherlink.Prelude.{
  ℕ, ◌<◌, ◌≡◌, length, ltb, if◌then◌else◌, Error, value_error, Result, ok, err, arith,
}
use gatherlink.Bytes.{Bytes}
use gatherlink.Security.RekeyControl.Messages.{RekeyControlMessage}

abbrev pub max_rekey_control_payload_bytes : ℕ
max_rekey_control_payload_bytes = 8192

abbrev pub too_large : Error
too_large = value_error "rekey control payload is too large"

unfoldable pub encode : (RekeyControlMessage → Bytes) → RekeyControlMessage → Result Bytes
encode json message =
    if ltb max_rekey_control_payload_bytes (length (json message))
    then err too_large
    else ok (json message)

unfoldable pub decode : (Bytes → Result RekeyControlMessage) → Bytes → Result RekeyControlMessage
decode parse payload =
    if ltb max_rekey_control_payload_bytes (length payload) then err too_large else parse payload

-- An encoding that raises is of a text that is too large.
pub encode-raises :
    (json : RekeyControlMessage → Bytes) (message : RekeyControlMessage) {e : Error}
    → encode json message ≡ err e
    → (max_rekey_control_payload_bytes < length (json message)) × (e ≡ too_large)
unfolding encode
encode-raises json message {e} h = ground arith
