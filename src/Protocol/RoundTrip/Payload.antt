-- ===== src/Protocol/RoundTrip/Payload.antt =====
-- The whole control payload: `decode_control_payload` undoes `encode_control_payload`.
use gatherlink.Prelude.{
  ◌+◌, ◌≤◌, ◌≡◌, refl, [], ◌∷◌, ◌++◌, some, ok, length, arith, >>=-eq-ok, raise_if-eq-ok,
  append-nil, ◌∙◌, ltb, ◌==◌, ◌⊕◌, ⊕-eq-ok, false,
}
use gatherlink.Prelude.Int.{pos}
use gatherlink.Bytes.{Bytes, to_be, from_be, append_byte, append_u16, read_u16}
use gatherlink.Protocol.Constants.{control_payload_version, u16_max}
use gatherlink.Protocol.Frame.{ControlFrame, empty_frame}
use gatherlink.Protocol.Encode.{message_count, encode_messages, encode_control_payload}
use gatherlink.Protocol.Decode.{decode_messages, decode_control_payload}
use gatherlink.Protocol.RoundTrip.Writes.{writes_byte, writes_u16}
use gatherlink.Protocol.RoundTrip.Messages.{IsCanonical, Carries-messages}

length_bound :
    (output : Bytes) {bs : Bytes}
    → ok output ≡ ok bs
    → ltb u16_max (length output) ≡ false
    → length bs ≤ u16_max
length_bound output same fits = ground arith

-- What a successful encoder has written: the version, the number of messages, the messages.
payload_parts :
    (f : ControlFrame) {bs : Bytes}
    → encode_control_payload f ≡ ok bs
    → (body : Bytes) × (encode_messages f ≡ ok body)
      × (bs ≡ control_payload_version ∷ (to_be 2 (message_count f) ++ body))
      × (from_be (to_be 2 (message_count f)) ≡ message_count f)
unfolding encode_control_payload
payload_parts f {bs} h =
    let (_, h1) = raise_if-eq-ok (message_count f == 0) _ _ h in
    let (output, written, h2) =
      >>=-eq-ok
        (append_byte (pos control_payload_version)
          ⊕ append_u16 (pos (message_count f))
          ⊕ encode_messages f)
        _ h1 in
    let (_, same) = raise_if-eq-ok (ltb u16_max (length output)) _ (ok output) h2 in
    let (x, rest, hx, hrest, e) =
      ⊕-eq-ok (append_byte (pos control_payload_version))
        (append_u16 (pos (message_count f)) ⊕ encode_messages f) written in
    let (y, body, hy, hbody, e') =
      ⊕-eq-ok (append_u16 (pos (message_count f))) (encode_messages f) hrest in
    let version = (writes_byte (pos control_payload_version)).at x hx in
    let count = (writes_u16 (pos (message_count f))).at y hy in
    (body, hbody, cc (same, e, e', version.0, count.0), ground arith)

-- When a control frame is encoded, the payload has at most 65535 bytes.
pub length-encode_control_payload :
    (f : ControlFrame) {bs : Bytes} → encode_control_payload f ≡ ok bs → length bs ≤ u16_max
unfolding encode_control_payload
length-encode_control_payload f {bs} h =
    let (_, h1) = raise_if-eq-ok (message_count f == 0) _ _ h in
    let (output, _, h2) =
      >>=-eq-ok
        (append_byte (pos control_payload_version)
          ⊕ append_u16 (pos (message_count f))
          ⊕ encode_messages f)
        _ h1 in
    let (fits, same) = raise_if-eq-ok (ltb u16_max (length output)) _ (ok output) h2 in
    length_bound output same fits

decode_messages-body :
    (f : ControlFrame) (body : Bytes)
    → IsCanonical f
    → encode_messages f ≡ ok body
    → decode_messages (message_count f) body empty_frame ≡ some f
decode_messages-body f body c h =
    let loop = (Carries-messages f c).at body [] 0 h in
    let count : message_count f + 0 ≡ message_count f = omega arith in
    rw (append-nil, count) at loop ∙ (unfold decode_messages in refl)

-- When a control frame is encoded to some bytes, and its dicts have every key once, its
-- scheduler policies have six fields, its latency statistics have no metric of zero and its
-- clock messages are complete, those bytes are decoded to the same frame.
pub decode_control_payload-encode :
    (f : ControlFrame) {bs : Bytes}
    → IsCanonical f
    → encode_control_payload f ≡ ok bs
    → decode_control_payload bs ≡ some f
unfolding decode_control_payload
decode_control_payload-encode f {bs} c h =
    let (body, hbody, e, count) = payload_parts f h in
    let loop = decode_messages-body f body c hbody in
    let counted : read_u16 (control_payload_version ∷ (to_be 2 (message_count f) ++ body)) 1
        ≡ message_count f =
      unfold to_be read_u16 in count in
    rw (e, counted) (unfold to_be in ground arith)
