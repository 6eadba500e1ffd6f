-- ===== src/Protocol/Encode/Names.antt =====
-- The four message kinds that give an id a text.
use gatherlink.Prelude.{
  ℕ, ◌+◌, String, List, [], ◌∷◌, ◌||◌, length, ltb, ◌==◌, Result, ok, raise_if, ◌>>=◌, ◌>>◌, ◌⊕◌,
}
use gatherlink.Prelude.Int.{ℤ, pos}
use gatherlink.Bytes.{Bytes, append_byte, append_u16}
use gatherlink.Text.{Text, utf8_encode}
use gatherlink.Protocol.Constants.{user_service_id_start, u16_max}
use gatherlink.Protocol.ControlType
use gatherlink.Protocol.Limits.{is_outside}

-- `for item in items: ...`, each round appending its bytes.
unfoldable pub write_each {ℓ} : {A : Type ℓ} → (A → Result Bytes) → List A → Result Bytes
write_each write [] = ok []
write_each write (x ∷ xs) = write x ⊕ write_each write xs

-- The body that the four loops share: the lowest id, the type and the message of the ValueError.
unfoldable pub encode_named : ℕ → ℕ → String → ℤ × Text → Result Bytes
encode_named lowest control_type message (id, name) = do
  encoded_name ← utf8_encode name
  raise_if
      (is_outside lowest u16_max id || (length encoded_name == 0) || ltb 255 (length encoded_name))
      message
  append_byte (pos control_type)
      ⊕ append_u16 (pos (3 + length encoded_name))
      ⊕ append_u16 id
      ⊕ append_byte (pos (length encoded_name))
      ⊕ ok encoded_name

unfoldable pub encode_path_metadata : ℤ × Text → Result Bytes
unfolding encode_named
encode_path_metadata = encode_named 0 ControlType.path_metadata "path metadata value out of range"

unfoldable pub encode_service_metadata : ℤ × Text → Result Bytes
unfolding encode_named
encode_service_metadata =
    encode_named user_service_id_start ControlType.service_metadata
      "service metadata value out of range"

unfoldable pub encode_service_endpoint_assertions : ℤ × Text → Result Bytes
unfolding encode_named
encode_service_endpoint_assertions =
    encode_named user_service_id_start ControlType.service_endpoint_assertion
      "service endpoint assertion value out of range"

unfoldable pub encode_service_disables : ℤ × Text → Result Bytes
unfolding encode_named
encode_service_disables =
    encode_named user_service_id_start ControlType.service_disable
      "service disable value out of range"
