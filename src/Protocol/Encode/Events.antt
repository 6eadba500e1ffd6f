-- ===== src/Protocol/Encode/Events.antt =====
-- Scheduler policy and status, transmit samples, and the two kinds of clock message.
use gatherlink.Prelude.{
  ◌+◌, [], Option, none, some, Bool, not, ◌||◌, length, ltb, ◌==◌, Result, ok, raise_if, ◌>>=◌,
  ◌>>◌, ◌⊕◌,
}
use gatherlink.Prelude.Int.{ℤ, pos, leb_ℤ, ltb_ℤ, eq_ℤ}
use gatherlink.Bytes.{Bytes, append_byte, append_u16, append_u32, append_u64}
use gatherlink.Text.{utf8_encode}
use gatherlink.Protocol.Constants.{user_service_id_start, u16_max, u32_max, u64_max, sequence_space}
use gatherlink.Protocol.ControlType
use gatherlink.Protocol.Frame.{
  ServiceSchedulerPolicy, five, six, SchedulerStatus, DataTransmitSample, InternalClockSyncMessage,
  SinkTimeMessage,
}
use gatherlink.Protocol.Limits.{is_outside, optional_u64}

-- The fields of a policy, that of a tuple of five being completed by the path policy 0.
pub record PolicyFields : Type 0 where
  pub fanout : ℤ
  pub fanout_below_bytes : ℤ
  pub flowlet_idle_us : ℤ
  pub flowlet_max_hold_us : ℤ
  pub path_run_datagrams : ℤ
  pub path_policy : ℤ

abbrev pub policy_fields : ServiceSchedulerPolicy → PolicyFields
policy_fields (five fanout fanout_below_bytes flowlet_idle_us flowlet_max_hold_us run) = record {
  fanout = fanout;
  fanout_below_bytes = fanout_below_bytes;
  flowlet_idle_us = flowlet_idle_us;
  flowlet_max_hold_us = flowlet_max_hold_us;
  path_run_datagrams = run;
  path_policy = pos 0;
}
policy_fields (six fanout fanout_below_bytes flowlet_idle_us flowlet_max_hold_us run policy) =
    record {
      fanout = fanout;
      fanout_below_bytes = fanout_below_bytes;
      flowlet_idle_us = flowlet_idle_us;
      flowlet_max_hold_us = flowlet_max_hold_us;
      path_run_datagrams = run;
      path_policy = policy;
    }

unfoldable pub encode_policy_fields : ℤ → PolicyFields → Result Bytes
encode_policy_fields service_id p = do
  raise_if
      (is_outside user_service_id_start u16_max service_id
        || is_outside 0 u16_max p.fanout
        || is_outside 0 u32_max p.fanout_below_bytes
        || is_outside 0 u64_max p.flowlet_idle_us
        || is_outside 0 u64_max p.flowlet_max_hold_us
        || is_outside 0 u32_max p.path_run_datagrams
        || is_outside 0 2 p.path_policy)
      "service scheduler policy value out of range"
  append_byte (pos ControlType.service_scheduler_policy)
      ⊕ append_u16 (pos 29)
      ⊕ append_u16 service_id
      ⊕ append_u16 p.fanout
      ⊕ append_u32 p.fanout_below_bytes
      ⊕ append_u64 p.flowlet_idle_us
      ⊕ append_u64 p.flowlet_max_hold_us
      ⊕ append_u32 p.path_run_datagrams
      ⊕ append_byte p.path_policy

unfoldable pub encode_service_scheduler_policies : ℤ × ServiceSchedulerPolicy → Result Bytes
unfolding encode_policy_fields
encode_service_scheduler_policies (service_id, policy) =
    encode_policy_fields service_id (policy_fields policy)

-- One value of the status: its length in one byte, then the bytes.
unfoldable pub append_short : Bytes → Result Bytes
append_short value = append_byte (pos (length value)) ⊕ ok value

-- `not value or len(value) > 63`
abbrev pub is_bad_short : Bytes → Bool
is_bad_short value = (length value == 0) || ltb 63 (length value)

-- What follows the three `encode("utf-8")` calls.
unfoldable pub encode_status_bytes : Bytes → Bytes → Bytes → Result Bytes
unfolding append_short
encode_status_bytes configured effective rust_mode = do
  raise_if (is_bad_short configured || is_bad_short effective || is_bad_short rust_mode)
      "scheduler status value out of range"
  append_byte (pos ControlType.scheduler_status)
      ⊕ append_u16 (pos (length configured + length effective + length rust_mode + 3))
      ⊕ append_short configured
      ⊕ append_short effective
      ⊕ append_short rust_mode

unfoldable pub encode_scheduler_status : Option SchedulerStatus → Result Bytes
unfolding encode_status_bytes
encode_scheduler_status none = ok []
encode_scheduler_status (some (configured, effective, rust_mode)) = do
  configured_bytes ← utf8_encode configured
  effective_bytes ← utf8_encode effective
  rust_mode_bytes ← utf8_encode rust_mode
  encode_status_bytes configured_bytes effective_bytes rust_mode_bytes

unfoldable pub encode_data_transmit_samples : DataTransmitSample → Result Bytes
encode_data_transmit_samples sample = do
  raise_if
      (is_outside 0 u16_max sample.path_id
        || ltb_ℤ sample.first_sequence (pos 0)
        || leb_ℤ (pos sequence_space) sample.first_sequence
        || leb_ℤ sample.packet_count (pos 0)
        || ltb_ℤ (pos u32_max) sample.packet_count
        || leb_ℤ sample.transmit_us (pos 0)
        || ltb_ℤ (pos u64_max) sample.transmit_us)
      "data transmit sample value out of range"
  append_byte (pos ControlType.data_transmit_sample)
      ⊕ append_u16 (pos 22)
      ⊕ append_u16 sample.path_id
      ⊕ append_u64 sample.first_sequence
      ⊕ append_u32 sample.packet_count
      ⊕ append_u64 sample.transmit_us

unfoldable pub encode_internal_clock_sync : InternalClockSyncMessage → Result Bytes
encode_internal_clock_sync sync = do
  raise_if
      (is_outside 0 u16_max sync.path_id
        || leb_ℤ sync.exchange_id (pos 0)
        || leb_ℤ sync.origin_us (pos 0))
      "internal clock sync value out of range"
  append_byte (pos ControlType.internal_clock_sync)
      ⊕ append_u16 (pos 35)
      ⊕ append_u64 sync.exchange_id
      ⊕ append_u16 sync.path_id
      ⊕ append_byte sync.mode
      ⊕ append_u64 sync.origin_us
      ⊕ (optional_u64 sync.receive_us >>= append_u64)
      ⊕ (optional_u64 sync.transmit_us >>= append_u64)

unfoldable pub encode_sink_time : SinkTimeMessage → Result Bytes
encode_sink_time message = do
  raise_if
      (is_outside 0 u16_max message.path_id
        || leb_ℤ message.sink_unix_us (pos 0)
        || leb_ℤ message.sink_internal_us (pos 0)
        || not (
            eq_ℤ message.ntp_state (pos 0)
            || eq_ℤ message.ntp_state (pos 1)
            || eq_ℤ message.ntp_state (pos 2)))
      "sink time value out of range"
  append_byte (pos ControlType.sink_time)
      ⊕ append_u16 (pos 19)
      ⊕ append_u16 message.path_id
      ⊕ append_u64 message.sink_unix_us
      ⊕ append_u64 message.sink_internal_us
      ⊕ append_byte message.ntp_state
