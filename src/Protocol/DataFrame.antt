-- ===== src/Protocol/DataFrame.antt =====
-- `encode_data_frame`, `encode_control_frame`, `decode_data_frame` and `decode_control_frame` of
-- python/gatherlink/protocol.py: the fixed header of 14 bytes in front of a payload.
use Prim.Native.Nat.{bit_and}
use gatherlink.Prelude.{
  ℕ, ◌+◌, not, ◌||◌, [], ◌∷◌, ◌++◌, Option, none, some, length, take, drop, get_or, ltb, ◌==◌,
  if◌then◌else◌, Result, ok, raise_if, ◌>>=◌, ◌>>◌,
}
use gatherlink.Prelude.Int.{ℤ, pos, ltb_ℤ, leb_ℤ}
use gatherlink.Bytes.{Bytes, to_bytes, read_u16, read_u64}
use gatherlink.Protocol.Constants.{
  gatherlink_protocol_version, gatherlink_kind_data, gatherlink_kind_control, gatherlink_kind_mask,
  gatherlink_fragment_present, gatherlink_kind_flags_reserved_mask, gatherlink_v1_header_len,
  gatherlink_fragment_metadata_len, service_id_control_metadata, default_service_id, u16_max,
  sequence_space,
}
use gatherlink.Protocol.Frame.{ControlFrame}
use gatherlink.Protocol.Limits.{is_outside}
use gatherlink.Protocol.Decode.{decode_control_payload}

pub record DataFrame : Type 0 where
  pub path_id : ℤ
  pub sequence : ℤ
  pub payload : Bytes

-- `bytearray(GATHERLINK_V1_HEADER_LEN)` after the assignments to its first two bytes.
abbrev pub new_header : ℕ → Bytes
new_header kind =
    gatherlink_protocol_version ∷ kind ∷ 0 ∷ 0 ∷ 0 ∷ 0 ∷ 0 ∷ 0 ∷ 0 ∷ 0 ∷ 0 ∷ 0 ∷ 0 ∷ 0 ∷ []

-- `output[offset : offset + w] = value.to_bytes(w, "big")`
unfoldable pub write_be : ℕ → Bytes → ℕ → ℤ → Result Bytes
unfolding to_bytes
write_be w output offset value = do
  bs ← to_bytes w value
  ok (take offset output ++ (bs ++ drop (offset + w) output))

unfoldable pub write_u16 : Bytes → ℕ → ℤ → Result Bytes
unfolding write_be
write_u16 = write_be 2

unfoldable pub write_u64 : Bytes → ℕ → ℤ → Result Bytes
unfolding write_be
write_u64 = write_be 8

unfoldable pub encode_data_frame : ℤ → ℤ → Bytes → Result Bytes
unfolding write_u16 write_u64
encode_data_frame sequence path_id payload = do
  raise_if
      (ltb_ℤ sequence (pos 0)
        || leb_ℤ (pos sequence_space) sequence
        || is_outside 0 u16_max path_id)
      "protocol data frame metadata value out of range"
  raise_if (ltb u16_max (length payload)) "protocol data frame payload is too large"
  header ← write_u16 (new_header gatherlink_kind_data) 2 (pos default_service_id)
  header ← write_u16 header 4 path_id
  header ← write_u64 header 6 sequence
  ok (header ++ payload)

unfoldable pub encode_control_frame : ℤ → Bytes → Result Bytes
unfolding write_u16 write_u64
encode_control_frame path_id payload = do
  raise_if (is_outside 0 u16_max path_id || ltb u16_max (length payload))
      "protocol control frame value out of range"
  header ← write_u16 (new_header gatherlink_kind_control) 2 (pos service_id_control_metadata)
  header ← write_u16 header 4 path_id
  header ← write_u64 header 6 (pos 0)
  ok (header ++ payload)

-- The checks that both decoders make, for one kind; the length of the header, if they pass.
unfoldable pub accepted_header : ℕ → Bytes → Option ℕ
accepted_header kind payload =
    if ltb (length payload) gatherlink_v1_header_len
    then none
    else if not (get_or payload 0 0 == gatherlink_protocol_version)
    then none
    else let kind_flags = get_or payload 1 0 in
      if not (bit_and kind_flags gatherlink_kind_flags_reserved_mask == 0)
        || not (bit_and kind_flags gatherlink_kind_mask == kind)
      then none
      else let header_len =
          gatherlink_v1_header_len
          + (if bit_and kind_flags gatherlink_fragment_present == 0
              then 0
              else gatherlink_fragment_metadata_len) in
        if ltb (length payload) header_len then none else some header_len

unfoldable pub decode_data_frame : Bytes → Option DataFrame
unfolding accepted_header
decode_data_frame payload = elim (accepted_header gatherlink_kind_data payload) [
  | none ↦ none
  | some header_len ↦ some (record {
    path_id = pos (read_u16 payload 4);
    sequence = pos (read_u64 payload 6);
    payload = drop header_len payload;
  })
]

unfoldable pub decode_control_frame : Bytes → Option ControlFrame
unfolding accepted_header
decode_control_frame payload = elim (accepted_header gatherlink_kind_control payload) [
  | none ↦ none
  | some header_len ↦ decode_control_payload (drop header_len payload)
]
