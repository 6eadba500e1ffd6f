-- ===== src/Protocol/RoundTrip/Paths.antt =====
-- Path capacity, latency and MTU: what the encoder accepts, the decoder reads back.
use gatherlink.Prelude.{◌≡◌, ◌++◌, Option, ok, arith}
use gatherlink.Prelude.Int.{ℤ, pos, pos_part}
use gatherlink.Bytes.{Bytes, to_be, read_u16, read_u32, read_u64}
use gatherlink.Protocol.ControlType
use gatherlink.Protocol.Encode.Paths.{encode_path_capacity, encode_path_latency, encode_path_mtu}
use gatherlink.Protocol.Decode.Values.{
  decode_path_capacity_value, decode_path_latency_value, decode_path_mtu_value,
}
use gatherlink.Protocol.RoundTrip.Sends.{Sends, or_zero}
use gatherlink.Protocol.RoundTrip.Writes.{
  guarded, ◌then◌, writes_byte, writes_u16, writes_optional_u64, writes_optional_u32,
  writes_optional_u16,
}

capacity_bytes : ℤ → Option ℤ → Option ℤ → Bytes
capacity_bytes id tx rx = to_be 2 (pos_part id) ++ (to_be 8 (or_zero tx) ++ to_be 8 (or_zero rx))

pub encode_path_capacity-Sends :
    (id : ℤ) (tx rx : Option ℤ) {bs : Bytes}
    → encode_path_capacity (id, (tx, rx)) ≡ ok bs
    → Sends ControlType.path_capacity decode_path_capacity_value (id, (tx, rx)) bs
unfolding encode_path_capacity capacity_bytes
encode_path_capacity-Sends id tx rx {bs} h =
    let w = guarded _ _ (
      writes_byte (pos ControlType.path_capacity)
      then writes_u16 (pos 18)
      then writes_u16 id
      then writes_optional_u64 tx
      then writes_optional_u64 rx) in
    let (e, facts) = w.at bs h in
    (
      capacity_bytes id tx rx,
      unfold to_be in e,
      unfold to_be in omega arith,
      unfold decode_path_capacity_value to_be read_u16 read_u64 in ground arith,
    )

latency_bytes : ℤ → Option ℤ → Option ℤ → Option ℤ → Option ℤ → Bytes
latency_bytes id a b c d =
    to_be 2 (pos_part id)
    ++ (to_be 4 (or_zero a)
        ++ (to_be 4 (or_zero b) ++ (to_be 4 (or_zero c) ++ to_be 4 (or_zero d))))

pub encode_path_latency-Sends :
    (id : ℤ) (a b c d : Option ℤ) {bs : Bytes}
    → encode_path_latency (id, (a, b, c, d)) ≡ ok bs
    → Sends ControlType.path_latency decode_path_latency_value (id, (a, b, c, d)) bs
unfolding encode_path_latency latency_bytes
encode_path_latency-Sends id a b c d {bs} h =
    let w = guarded _ _ (
      writes_byte (pos ControlType.path_latency)
      then writes_u16 (pos 18)
      then writes_u16 id
      then writes_optional_u32 a
      then writes_optional_u32 b
      then writes_optional_u32 c
      then writes_optional_u32 d) in
    let (e, facts) = w.at bs h in
    (
      latency_bytes id a b c d,
      unfold to_be in e,
      unfold to_be in omega arith,
      unfold decode_path_latency_value to_be read_u16 read_u32 in ground arith,
    )

mtu_bytes : ℤ → Option ℤ → Option ℤ → Option ℤ → Option ℤ → Bytes
mtu_bytes id a b c d =
    to_be 2 (pos_part id)
    ++ (to_be 2 (or_zero a)
        ++ (to_be 2 (or_zero b) ++ (to_be 2 (or_zero c) ++ to_be 2 (or_zero d))))

pub encode_path_mtu-Sends :
    (id : ℤ) (a b c d : Option ℤ) {bs : Bytes}
    → encode_path_mtu (id, (a, b, c, d)) ≡ ok bs
    → Sends ControlType.path_mtu decode_path_mtu_value (id, (a, b, c, d)) bs
unfolding encode_path_mtu mtu_bytes
encode_path_mtu-Sends id a b c d {bs} h =
    let w = guarded _ _ (
      writes_byte (pos ControlType.path_mtu)
      then writes_u16 (pos 10)
      then writes_u16 id
      then writes_optional_u16 a
      then writes_optional_u16 b
      then writes_optional_u16 c
      then writes_optional_u16 d) in
    let (e, facts) = w.at bs h in
    (
      mtu_bytes id a b c d,
      unfold to_be in e,
      unfold to_be in omega arith,
      unfold decode_path_mtu_value to_be read_u16 in ground arith,
    )
