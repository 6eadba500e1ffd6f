-- ===== src/Protocol/Decode/Events.antt =====
-- The decoders of scheduler policy and status, transmit samples and clock messages.
use gatherlink.Prelude.{
  [], ◌∷◌, Option, none, some, not, ◌||◌, ◌&&◌, length, take, drop, get_or, ltb, ◌==◌,
  if◌then◌else◌,
}
use gatherlink.Prelude.Int.{ℤ, pos}
use gatherlink.Prelude.Maybe.{◌>>=◌}
use gatherlink.Bytes.{Bytes, read_u16, read_u32, read_u64}
use gatherlink.Text.{Text, utf8_decode}
use gatherlink.Protocol.Constants.{user_service_id_start}
use gatherlink.Protocol.Frame.{
  ServiceSchedulerPolicy, six, SchedulerStatus, DataTransmitSample, InternalClockSyncMessage,
  SinkTimeMessage,
}
use gatherlink.Protocol.Limits.{decode_optional}
use gatherlink.Protocol.Decode.Values.{is_none}

unfoldable pub decode_service_scheduler_policy_value : Bytes → Option (ℤ × ServiceSchedulerPolicy)
decode_service_scheduler_policy_value value =
    if not (length value == 29)
    then none
    else let service_id = read_u16 value 0 in
      if ltb service_id user_service_id_start
      then none
      else let path_policy = get_or value 28 0 in
        if ltb 2 path_policy
        then none
        else some (
          pos service_id,
          six (pos (read_u16 value 2)) (pos (read_u32 value 4)) (pos (read_u64 value 8))
              (pos (read_u64 value 16)) (pos (read_u32 value 24)) (pos path_policy),
        )

-- One round of the loop over the three values: the text and what follows it.
unfoldable pub read_short : Bytes → Option (Text × Bytes)
read_short [] = none
read_short (value_len ∷ rest) =
    if (value_len == 0) || ltb (length rest) value_len
    then none
    else do text ← utf8_decode (take value_len rest); some (text, drop value_len rest)

unfoldable pub decode_scheduler_status_value : Bytes → Option SchedulerStatus
unfolding read_short
decode_scheduler_status_value value = do
  (configured, rest1) ← read_short value
  (effective, rest2) ← read_short rest1
  (rust_mode, rest3) ← read_short rest2
  if not (length rest3 == 0) then none else some (configured, effective, rust_mode)

unfoldable pub decode_data_transmit_sample_value : Bytes → Option DataTransmitSample
decode_data_transmit_sample_value value =
    if not (length value == 22)
    then none
    else let packet_count = read_u32 value 10 in
      let transmit_us = read_u64 value 14 in
      if (packet_count == 0) || (transmit_us == 0)
      then none
      else some (record {
        path_id = pos (read_u16 value 0);
        first_sequence = pos (read_u64 value 2);
        packet_count = pos packet_count;
        transmit_us = pos transmit_us;
      })

unfoldable pub decode_internal_clock_sync_value : Bytes → Option InternalClockSyncMessage
decode_internal_clock_sync_value value =
    if not (length value == 35)
    then none
    else let mode = get_or value 10 0 in
      if not ((mode == 1) || (mode == 2))
      then none
      else let exchange_id = read_u64 value 0 in
        let origin_us = read_u64 value 11 in
        if (exchange_id == 0) || (origin_us == 0)
        then none
        else let receive_us = decode_optional (read_u64 value 19) in
          let transmit_us = decode_optional (read_u64 value 27) in
          if (mode == 2) && (is_none receive_us || is_none transmit_us)
          then none
          else some (record {
            exchange_id = pos exchange_id;
            path_id = pos (read_u16 value 8);
            mode = pos mode;
            origin_us = pos origin_us;
            receive_us = receive_us;
            transmit_us = transmit_us;
          })

unfoldable pub decode_sink_time_value : Bytes → Option SinkTimeMessage
decode_sink_time_value value =
    if not (length value == 19)
    then none
    else let ntp_state = get_or value 18 0 in
      if not ((ntp_state == 0) || (ntp_state == 1) || (ntp_state == 2))
      then none
      else let sink_unix_us = read_u64 value 2 in
        let sink_internal_us = read_u64 value 10 in
        if (sink_unix_us == 0) || (sink_internal_us == 0)
        then none
        else some (record {
          path_id = pos (read_u16 value 0);
          sink_unix_us = pos sink_unix_us;
          sink_internal_us = pos sink_internal_us;
          ntp_state = pos ntp_state;
        })
