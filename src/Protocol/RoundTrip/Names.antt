-- ===== src/Protocol/RoundTrip/Names.antt =====
-- The message kinds that carry texts: the four names, and the scheduler status.
use gatherlink.Prelude.{
  ℕ, ◌+◌, ◌<◌, ◌≡◌, ◌≢◌, String, ◌∷◌, ◌++◌, [], some, ok, length, length-append, false,
  take-append_length, drop-append_length, append-nil, arith, >>=-eq-ok,
}
use gatherlink.Prelude.Int.{ℤ, pos, pos_part}
use gatherlink.Bytes.{Bytes, to_be, from_be, append_byte, read_u16}
use gatherlink.Text.{Text, utf8_encode}
use gatherlink.Text.RoundTrip.{utf8_decode-encode}
use gatherlink.Protocol.ControlType
use gatherlink.Protocol.Constants.{u16_max}
use gatherlink.Protocol.Limits.{is_outside}
use gatherlink.Protocol.Encode.Names.{
  encode_named, encode_path_metadata, encode_service_metadata, encode_service_endpoint_assertions,
  encode_service_disables,
}
use gatherlink.Protocol.Encode.Events.{
  encode_scheduler_status, append_short, is_bad_short, encode_status_bytes,
}
use gatherlink.Protocol.Decode.Values.{
  decode_named, decode_path_metadata_value, decode_service_metadata_value,
  decode_service_endpoint_assertion_value, decode_service_disable_value,
}
use gatherlink.Protocol.Decode.Events.{read_short, decode_scheduler_status_value}
use gatherlink.Protocol.RoundTrip.Sends.{Sends}
use gatherlink.Protocol.RoundTrip.Writes.{
  Writes, guarded, ◌then◌, writes_byte, writes_u16, writes_bytes,
}

text_nonempty :
    (text : Text) (bs : Bytes) → utf8_encode text ≡ ok bs → length bs ≢ 0 → length text ≢ 0
unfolding utf8_encode
text_nonempty [] bs h n = ground arith
text_nonempty (c ∷ text) bs h n = omega arith

named_bytes : ℤ → Bytes → Bytes
named_bytes id encoded = to_be 2 (pos_part id) ++ (length encoded ∷ encoded)

decode-named_bytes :
    (lowest : ℕ) (id : ℤ) (name : Text) (encoded : Bytes)
    → utf8_encode name ≡ ok encoded
    → length encoded ≢ 0
    → is_outside lowest u16_max id ≡ false
    → pos (from_be (to_be 2 (pos_part id))) ≡ id
    → decode_named lowest (named_bytes id encoded) ≡ some (id, name)
unfolding decode_named named_bytes to_be read_u16
decode-named_bytes lowest id name encoded he hn hr hi =
    ground (arith, utf8_decode-encode name he, text_nonempty name encoded he hn)

encode_named-Sends :
    (lowest t : ℕ) (message : String) (id : ℤ) (name : Text) {bs : Bytes}
    → encode_named lowest t message (id, name) ≡ ok bs
    → Sends t (decode_named lowest) (id, name) bs
unfolding encode_named
encode_named-Sends lowest t message id name {bs} h =
    let (encoded, he, h') = >>=-eq-ok (utf8_encode name) _ h in
    let w = guarded _ _ (
      writes_byte (pos t)
      then writes_u16 (pos (3 + length encoded))
      then writes_u16 id
      then writes_byte (pos (length encoded))
      then writes_bytes encoded) in
    let (e, facts) = w.at bs h' in
    (
      named_bytes id encoded,
      unfold named_bytes to_be in ground arith,
      unfold named_bytes to_be in ground arith,
      decode-named_bytes lowest id name encoded he (ground arith) (ground arith) (ground arith),
    )

module _ (id : ℤ) (name : Text) {bs : Bytes} where
  pub encode_path_metadata-Sends :
      encode_path_metadata (id, name) ≡ ok bs
      → Sends ControlType.path_metadata decode_path_metadata_value (id, name) bs
  unfolding encode_path_metadata decode_path_metadata_value
  encode_path_metadata-Sends = encode_named-Sends _ _ _ id name

  pub encode_service_metadata-Sends :
      encode_service_metadata (id, name) ≡ ok bs
      → Sends ControlType.service_metadata decode_service_metadata_value (id, name) bs
  unfolding encode_service_metadata decode_service_metadata_value
  encode_service_metadata-Sends = encode_named-Sends _ _ _ id name

  pub encode_service_endpoint_assertions-Sends :
      encode_service_endpoint_assertions (id, name) ≡ ok bs
      → Sends ControlType.service_endpoint_assertion decode_service_endpoint_assertion_value
          (id, name)
          bs
  unfolding encode_service_endpoint_assertions decode_service_endpoint_assertion_value
  encode_service_endpoint_assertions-Sends = encode_named-Sends _ _ _ id name

  pub encode_service_disables-Sends :
      encode_service_disables (id, name) ≡ ok bs
      → Sends ControlType.service_disable decode_service_disable_value (id, name) bs
  unfolding encode_service_disables decode_service_disable_value
  encode_service_disables-Sends = encode_named-Sends _ _ _ id name

-- A text read from its length and its bytes, with what follows left over.
read_short-append :
    (text : Text) (bs rest : Bytes)
    → utf8_encode text ≡ ok bs
    → is_bad_short bs ≡ false
    → read_short (length bs ∷ (bs ++ rest)) ≡ some (text, rest)
unfolding read_short
read_short-append text bs rest h good =
    rw (take-append_length, drop-append_length, utf8_decode-encode text h)
      (ground (arith, length-append bs rest))

short_bound : (bs : Bytes) → is_bad_short bs ≡ false → length bs < 64
short_bound bs h = ground arith

short : Bytes → Bytes
short bs = length bs ∷ bs

writes_short : (bs : Bytes) → Writes (append_short bs) (short bs) Unit
unfolding append_short append_byte short
writes_short bs = record { at = λ z h. (ground arith, tt) }

status_bytes : Bytes → Bytes → Bytes → Bytes
status_bytes c e r = short c ++ (short e ++ (short r ++ []))

length-status_bytes :
    (c e r : Bytes) → length (status_bytes c e r) ≡ length c + length e + length r + 3
unfolding status_bytes short
length-status_bytes c e r = omega (
  arith,
  length-append c (short e ++ (short r ++ [])),
  length-append e (short r ++ []),
  length-append r [],
)

module _ (cb eb rb : Bytes) {bs : Bytes} (h : encode_status_bytes cb eb rb ≡ ok bs) where
  status_good : (is_bad_short cb ≡ false) × (is_bad_short eb ≡ false) × (is_bad_short rb ≡ false)
  unfolding encode_status_bytes
  status_good = ground arith

  status_written :
      bs
      ≡ ControlType.scheduler_status
        ∷ (to_be 2 (length (status_bytes cb eb rb)) ++ status_bytes cb eb rb)
  unfolding encode_status_bytes
  status_written =
      let w = guarded _ _ (
        writes_byte (pos ControlType.scheduler_status)
        then writes_u16 (pos (length cb + length eb + length rb + 3))
        then writes_short cb
        then writes_short eb
        then writes_short rb) in
      let (e, facts) = w.at bs h in
      rw length-status_bytes (unfold status_bytes in simp append-nil e)

decode-status_bytes :
    (c e r : Text) (cb eb rb : Bytes)
    → utf8_encode c ≡ ok cb
    → utf8_encode e ≡ ok eb
    → utf8_encode r ≡ ok rb
    → (is_bad_short cb ≡ false) × (is_bad_short eb ≡ false) × (is_bad_short rb ≡ false)
    → decode_scheduler_status_value (status_bytes cb eb rb) ≡ some (c, e, r)
unfolding decode_scheduler_status_value status_bytes short
decode-status_bytes c e r cb eb rb hc he hr good = rw (
  read_short-append c cb (short eb ++ (short rb ++ [])) hc good.0,
  read_short-append e eb (short rb ++ []) he good.1,
  read_short-append r rb [] hr good.2,
)

pub encode_scheduler_status-Sends :
    (c e r : Text) {bs : Bytes}
    → encode_scheduler_status (some (c, e, r)) ≡ ok bs
    → Sends ControlType.scheduler_status decode_scheduler_status_value (c, e, r) bs
unfolding encode_scheduler_status
encode_scheduler_status-Sends c e r {bs} h =
    let (cb, hc, h1) = >>=-eq-ok (utf8_encode c) _ h in
    let (eb, he, h2) = >>=-eq-ok (utf8_encode e) _ h1 in
    let (rb, hr, h3) = >>=-eq-ok (utf8_encode r) _ h2 in
    let good = status_good cb eb rb h3 in
    (
      status_bytes cb eb rb,
      status_written cb eb rb h3,
      omega (
        arith,
        length-status_bytes cb eb rb,
        short_bound cb good.0,
        short_bound eb good.1,
        short_bound rb good.2,
      ),
      decode-status_bytes c e r cb eb rb hc he hr good,
    )
