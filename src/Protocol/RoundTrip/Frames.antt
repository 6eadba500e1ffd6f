-- ===== src/Protocol/RoundTrip/Frames.antt =====
-- The two kinds of frame: each is read back by its own decoder and refused by the other.
use gatherlink.Prelude.{ℕ, ◌≤◌, ◌≡◌, ◌∷◌, ◌++◌, none, some, ok, arith}
use gatherlink.Prelude.Int.{ℤ, pos, pos_part}
use gatherlink.Bytes.{Bytes, to_be, from_be, read_u16, read_u64}
use gatherlink.Bytes.Laws.{from_be-to_be}
use gatherlink.Protocol.Constants.{service_id_control_metadata, default_service_id, u16_max}
use gatherlink.Protocol.Frame.{ControlFrame}
use gatherlink.Protocol.Encode.{encode_control_payload}
use gatherlink.Protocol.Decode.{decode_control_payload}
use gatherlink.Protocol.DataFrame.{
  encode_data_frame, encode_control_frame, decode_data_frame, decode_control_frame,
}
use gatherlink.Protocol.RoundTrip.Messages.{IsCanonical}
use gatherlink.Protocol.RoundTrip.Payload.{
  decode_control_payload-encode, length-encode_control_payload,
}

-- A frame as both encoders write it.
frame_bytes : ℕ → ℕ → ℕ → ℕ → Bytes → Bytes
frame_bytes kind service path sequence payload =
    1 ∷ kind ∷ (to_be 2 service ++ (to_be 2 path ++ (to_be 8 sequence ++ payload)))

encode_data_frame-bytes :
    (sequence path_id : ℤ) (payload : Bytes) {bs : Bytes}
    → encode_data_frame sequence path_id payload ≡ ok bs
    → bs ≡ frame_bytes 0 default_service_id (pos_part path_id) (pos_part sequence) payload
unfolding encode_data_frame frame_bytes to_be
encode_data_frame-bytes sequence path_id payload h = ground arith

encode_control_frame-bytes :
    (path_id : ℤ) (payload : Bytes) {bs : Bytes}
    → encode_control_frame path_id payload ≡ ok bs
    → bs ≡ frame_bytes 1 service_id_control_metadata (pos_part path_id) 0 payload
unfolding encode_control_frame frame_bytes to_be
encode_control_frame-bytes path_id payload h = ground arith

data_frame_range :
    (sequence path_id : ℤ) (payload : Bytes) {bs : Bytes}
    → encode_data_frame sequence path_id payload ≡ ok bs
    → (pos (from_be (to_be 2 (pos_part path_id))) ≡ path_id)
      × (pos (from_be (to_be 8 (pos_part sequence))) ≡ sequence)
unfolding encode_data_frame
data_frame_range sequence path_id payload h = (
  ground (arith, from_be-to_be 2 (pos_part path_id)),
  ground (arith, from_be-to_be 8 (pos_part sequence)),
)

-- When a data frame is encoded, its bytes are decoded to the path, the sequence number and the
-- payload that it was made of.
pub decode_data_frame-encode :
    (sequence path_id : ℤ) (payload : Bytes) {bs : Bytes}
    → encode_data_frame sequence path_id payload ≡ ok bs
    → decode_data_frame bs
      ≡ some (record { path_id = path_id; sequence = sequence; payload = payload })
unfolding decode_data_frame
decode_data_frame-encode sequence path_id payload h =
    let range = data_frame_range sequence path_id payload h in
    rw (encode_data_frame-bytes sequence path_id payload h)
      (unfold frame_bytes to_be read_u16 read_u64 in ground (arith, range.0, range.1))

-- When any payload is framed as control, decoding the frame gives what decoding the payload
-- alone gives.
decode_control_frame-encode :
    (path_id : ℤ) (payload : Bytes) {bs : Bytes}
    → encode_control_frame path_id payload ≡ ok bs
    → decode_control_frame bs ≡ decode_control_payload payload
unfolding decode_control_frame
decode_control_frame-encode path_id payload h =
    rw (encode_control_frame-bytes path_id payload h) (unfold frame_bytes to_be in ground arith)

-- When a payload is framed as data and as control, the control decoder refuses the first frame
-- and the data decoder refuses the second.
pub frames_apart :
    (sequence path_id : ℤ) (payload : Bytes) {data_bs control_bs : Bytes}
    → encode_data_frame sequence path_id payload ≡ ok data_bs
    → encode_control_frame path_id payload ≡ ok control_bs
    → (decode_control_frame data_bs ≡ none) × (decode_data_frame control_bs ≡ none)
unfolding decode_control_frame decode_data_frame
frames_apart sequence path_id payload h k = (
  rw (encode_data_frame-bytes sequence path_id payload h)
      (unfold frame_bytes to_be in ground arith),
  rw (encode_control_frame-bytes path_id payload k) (unfold frame_bytes to_be in ground arith),
)

-- When a canonical frame is encoded to a payload and the payload is framed on a path, the
-- framed bytes are decoded to the same frame.
pub decode_control_frame-payload :
    (f : ControlFrame) (path_id : ℤ) {payload bs : Bytes}
    → IsCanonical f
    → encode_control_payload f ≡ ok payload
    → encode_control_frame path_id payload ≡ ok bs
    → decode_control_frame bs ≡ some f
decode_control_frame-payload f path_id {payload} {bs} c h k =
    rw (decode_control_frame-encode path_id payload k) (decode_control_payload-encode f c h)

-- When a control frame is encoded to a payload and the path id has at most 16 bits, the payload
-- can be framed on that path.
encode_control_frame-payload :
    (f : ControlFrame) (path_id : ℕ) {payload : Bytes}
    → path_id ≤ u16_max
    → encode_control_payload f ≡ ok payload
    → (bs : Bytes) × (encode_control_frame (pos path_id) payload ≡ ok bs)
unfolding encode_control_frame frame_bytes
encode_control_frame-payload f path_id {payload} bound h = (
  frame_bytes 1 service_id_control_metadata path_id 0 payload,
  unfold to_be in ground (arith, length-encode_control_payload f h),
)
