-- ===== src/Protocol/RoundTrip/Clocks.antt =====
-- Scheduler policy, transmit samples and clock messages.
use gatherlink.Prelude.{◌≡◌, ◌∷◌, ◌++◌, [], ok, arith}
use gatherlink.Prelude.Int.{ℤ, pos, pos_part}
use gatherlink.Bytes.{Bytes, to_be, read_u16, read_u32, read_u64}
use gatherlink.Protocol.Frame.{six, DataTransmitSample, InternalClockSyncMessage, SinkTimeMessage}
use gatherlink.Protocol.ControlType
use gatherlink.Protocol.Encode.Events.{
  encode_service_scheduler_policies, encode_data_transmit_samples, encode_internal_clock_sync,
  encode_sink_time,
}
use gatherlink.Protocol.Decode.Events.{
  decode_service_scheduler_policy_value, decode_data_transmit_sample_value,
  decode_internal_clock_sync_value, decode_sink_time_value,
}
use gatherlink.Protocol.RoundTrip.Sends.{Sends, or_zero, IsCompleteSync}
use gatherlink.Protocol.RoundTrip.Writes.{
  guarded, ◌then◌, writes_byte, writes_u16, writes_u32, writes_u64, writes_optional_u64,
}

policy_bytes : ℤ → ℤ → ℤ → ℤ → ℤ → ℤ → ℤ → Bytes
policy_bytes id a b c d e p =
    to_be 2 (pos_part id)
    ++ (to_be 2 (pos_part a)
        ++ (to_be 4 (pos_part b)
            ++ (to_be 8 (pos_part c)
                ++ (to_be 8 (pos_part d) ++ (to_be 4 (pos_part e) ++ pos_part p ∷ [])))))

pub encode_service_scheduler_policies-Sends :
    (id a b c d e p : ℤ) {bs : Bytes}
    → encode_service_scheduler_policies (id, six a b c d e p) ≡ ok bs
    → Sends ControlType.service_scheduler_policy decode_service_scheduler_policy_value
        (id, six a b c d e p)
        bs
unfolding encode_service_scheduler_policies policy_bytes
encode_service_scheduler_policies-Sends id a b c d e p {bs} h =
    let w = guarded _ _ (
      writes_byte (pos ControlType.service_scheduler_policy)
      then writes_u16 (pos 29)
      then writes_u16 id
      then writes_u16 a
      then writes_u32 b
      then writes_u64 c
      then writes_u64 d
      then writes_u32 e
      then writes_byte p) in
    let (eq, facts) = w.at bs h in
    (
      policy_bytes id a b c d e p,
      unfold to_be in eq,
      unfold to_be in omega arith,
      unfold decode_service_scheduler_policy_value to_be read_u16 read_u32 read_u64 in ground arith,
    )

sample_bytes : DataTransmitSample → Bytes
sample_bytes s =
    to_be 2 (pos_part s.path_id)
    ++ (to_be 8 (pos_part s.first_sequence)
        ++ (to_be 4 (pos_part s.packet_count) ++ to_be 8 (pos_part s.transmit_us)))

pub encode_data_transmit_samples-Sends :
    (s : DataTransmitSample) {bs : Bytes}
    → encode_data_transmit_samples s ≡ ok bs
    → Sends ControlType.data_transmit_sample decode_data_transmit_sample_value s bs
unfolding encode_data_transmit_samples sample_bytes
encode_data_transmit_samples-Sends s {bs} h =
    let w = guarded _ _ (
      writes_byte (pos ControlType.data_transmit_sample)
      then writes_u16 (pos 22)
      then writes_u16 s.path_id
      then writes_u64 s.first_sequence
      then writes_u32 s.packet_count
      then writes_u64 s.transmit_us) in
    let (e, facts) = w.at bs h in
    (
      sample_bytes s,
      unfold to_be in e,
      unfold to_be in omega arith,
      unfold decode_data_transmit_sample_value to_be read_u16 read_u32 read_u64 in ground arith,
    )

sync_bytes : InternalClockSyncMessage → Bytes
sync_bytes s =
    to_be 8 (pos_part s.exchange_id)
    ++ (to_be 2 (pos_part s.path_id)
        ++ (pos_part s.mode ∷ []
            ++ (to_be 8 (pos_part s.origin_us)
                ++ (to_be 8 (or_zero s.receive_us) ++ to_be 8 (or_zero s.transmit_us)))))

pub encode_internal_clock_sync-Sends :
    (s : InternalClockSyncMessage) {bs : Bytes}
    → IsCompleteSync s
    → encode_internal_clock_sync s ≡ ok bs
    → Sends ControlType.internal_clock_sync decode_internal_clock_sync_value s bs
unfolding encode_internal_clock_sync sync_bytes
encode_internal_clock_sync-Sends s {bs} complete h =
    let w = guarded _ _ (
      writes_byte (pos ControlType.internal_clock_sync)
      then writes_u16 (pos 35)
      then writes_u64 s.exchange_id
      then writes_u16 s.path_id
      then writes_byte s.mode
      then writes_u64 s.origin_us
      then writes_optional_u64 s.receive_us
      then writes_optional_u64 s.transmit_us) in
    let (e, facts) = w.at bs h in
    (
      sync_bytes s,
      unfold to_be in e,
      unfold to_be in omega arith,
      unfold decode_internal_clock_sync_value to_be read_u16 read_u64 in ground arith,
    )

sink_bytes : SinkTimeMessage → Bytes
sink_bytes m =
    to_be 2 (pos_part m.path_id)
    ++ (to_be 8 (pos_part m.sink_unix_us)
        ++ (to_be 8 (pos_part m.sink_internal_us) ++ pos_part m.ntp_state ∷ []))

pub encode_sink_time-Sends :
    (m : SinkTimeMessage) {bs : Bytes}
    → encode_sink_time m ≡ ok bs
    → Sends ControlType.sink_time decode_sink_time_value m bs
unfolding encode_sink_time sink_bytes
encode_sink_time-Sends m {bs} h =
    let w = guarded _ _ (
      writes_byte (pos ControlType.sink_time)
      then writes_u16 (pos 19)
      then writes_u16 m.path_id
      then writes_u64 m.sink_unix_us
      then writes_u64 m.sink_internal_us
      then writes_byte m.ntp_state) in
    let (e, facts) = w.at bs h in
    (
      sink_bytes m,
      unfold to_be in e,
      unfold to_be in omega arith,
      unfold decode_sink_time_value to_be read_u16 read_u64 in ground arith,
    )
