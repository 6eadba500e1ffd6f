-- ===== src/Protocol/Decode.antt =====
-- `decode_control_payload` of python/gatherlink/protocol.py. The list of bytes is `payload[cursor:]`.
pub mod Values
pub mod Events
use gatherlink.Prelude.{
  ℕ, zero, suc, [], ◌∷◌, ◌++◌, Option, none, some, length, take, drop, get_or, ltb, ◌==◌, ◌||◌, not,
  insert, if◌then◌else◌,
}
use gatherlink.Prelude.Maybe.{◌>>=◌}
use gatherlink.Bytes.{Bytes, read_u16}
use gatherlink.Protocol.Constants.{control_payload_version}
use gatherlink.Protocol.ControlType
use gatherlink.Protocol.Frame.{ControlFrame, empty_frame}
use Values.{
  decode_path_metadata_value, decode_service_metadata_value,
  decode_service_endpoint_assertion_value, decode_service_disable_value, decode_path_capacity_value,
  decode_path_latency_value, decode_path_latency_quality_value, decode_path_latency_stats_value,
  decode_path_mtu_value, decode_path_pressure_value,
}
use Events.{
  decode_service_scheduler_policy_value, decode_scheduler_status_value,
  decode_data_transmit_sample_value, decode_internal_clock_sync_value, decode_sink_time_value,
}

-- The kinds of message that the decoder knows, and all others.
pub data Kind : Type 0 where
  path_metadata service_metadata service_endpoint_assertion service_disable service_scheduler_policy
        path_capacity path_latency path_latency_quality path_latency_stats path_mtu path_pressure
        scheduler_status data_transmit_sample internal_clock_sync sink_time :
      Kind
  unknown : Kind

-- The tests of the chain `elif message_type == ...`.
unfoldable pub kind_of : ℕ → Kind
kind_of message_type =
    if message_type == ControlType.path_metadata
    then Kind.path_metadata
    else if message_type == ControlType.service_metadata
    then Kind.service_metadata
    else if message_type == ControlType.service_endpoint_assertion
    then Kind.service_endpoint_assertion
    else if message_type == ControlType.service_disable
    then Kind.service_disable
    else if message_type == ControlType.service_scheduler_policy
    then Kind.service_scheduler_policy
    else if message_type == ControlType.path_capacity
    then Kind.path_capacity
    else if message_type == ControlType.path_latency
    then Kind.path_latency
    else if message_type == ControlType.path_latency_quality
    then Kind.path_latency_quality
    else if message_type == ControlType.path_latency_stats
    then Kind.path_latency_stats
    else if message_type == ControlType.path_mtu
    then Kind.path_mtu
    else if message_type == ControlType.path_pressure
    then Kind.path_pressure
    else if message_type == ControlType.scheduler_status
    then Kind.scheduler_status
    else if message_type == ControlType.data_transmit_sample
    then Kind.data_transmit_sample
    else if message_type == ControlType.internal_clock_sync
    then Kind.internal_clock_sync
    else if message_type == ControlType.sink_time
    then Kind.sink_time
    else Kind.unknown

-- The branches of that chain; an unknown type changes nothing.
unfoldable pub apply_kind : ControlFrame → Kind → Bytes → Option ControlFrame
apply_kind f Kind.path_metadata value = do
  (k, v) ← decode_path_metadata_value value
  some (record f { path_metadata = insert k v f.path_metadata })
apply_kind f Kind.service_metadata value = do
  (k, v) ← decode_service_metadata_value value
  some (record f { service_metadata = insert k v f.service_metadata })
apply_kind f Kind.service_endpoint_assertion value = do
  (k, v) ← decode_service_endpoint_assertion_value value
  some (record f { service_endpoint_assertions = insert k v f.service_endpoint_assertions })
apply_kind f Kind.service_disable value = do
  (k, v) ← decode_service_disable_value value
  some (record f { service_disables = insert k v f.service_disables })
apply_kind f Kind.service_scheduler_policy value = do
  (k, v) ← decode_service_scheduler_policy_value value
  some (record f { service_scheduler_policies = insert k v f.service_scheduler_policies })
apply_kind f Kind.path_capacity value = do
  (k, v) ← decode_path_capacity_value value
  some (record f { path_capacity_bps = insert k v f.path_capacity_bps })
apply_kind f Kind.path_latency value = do
  (k, v) ← decode_path_latency_value value
  some (record f { path_latency_us = insert k v f.path_latency_us })
apply_kind f Kind.path_latency_quality value = do
  (k, v) ← decode_path_latency_quality_value value
  some (record f { path_latency_quality = insert k v f.path_latency_quality })
apply_kind f Kind.path_latency_stats value = do
  (k, v) ← decode_path_latency_stats_value value
  some (record f { path_latency_stats = insert k v f.path_latency_stats })
apply_kind f Kind.path_mtu value = do
  (k, v) ← decode_path_mtu_value value
  some (record f { path_mtu = insert k v f.path_mtu })
apply_kind f Kind.path_pressure value = do
  (k, v) ← decode_path_pressure_value value
  some (record f { path_pressure = insert k v f.path_pressure })
apply_kind f Kind.scheduler_status value = do
  status ← decode_scheduler_status_value value
  some (record f { scheduler_status = some status })
apply_kind f Kind.data_transmit_sample value = do
  item ← decode_data_transmit_sample_value value
  some (record f { data_transmit_samples = f.data_transmit_samples ++ item ∷ [] })
apply_kind f Kind.internal_clock_sync value = do
  item ← decode_internal_clock_sync_value value
  some (record f { internal_clock_sync = f.internal_clock_sync ++ item ∷ [] })
apply_kind f Kind.sink_time value = do
  item ← decode_sink_time_value value
  some (record f { sink_time = f.sink_time ++ item ∷ [] })
apply_kind f Kind.unknown value = some f

unfoldable pub apply_message : ControlFrame → ℕ → Bytes → Option ControlFrame
unfolding kind_of apply_kind
apply_message f message_type value = apply_kind f (kind_of message_type) value

-- The checks of one round of the loop: the type, the value and what follows it.
unfoldable pub next_message : Bytes → Option (ℕ × Bytes × Bytes)
next_message rest =
    if ltb (length rest) 3
    then none
    else let value_len = read_u16 rest 1 in
      if ltb (length (drop 3 rest)) value_len
      then none
      else some (get_or rest 0 0, take value_len (drop 3 rest), drop value_len (drop 3 rest))

-- `for _ in range(message_count)`, then `cursor != len(payload)`.
unfoldable pub decode_messages : ℕ → Bytes → ControlFrame → Option ControlFrame
decode_messages zero rest f = if not (length rest == 0) then none else some f
decode_messages (suc count) rest f = elim (next_message rest) [
  | none ↦ none
  | some (message_type, value, rest') ↦ elim (apply_message f message_type value) [
    | none ↦ none
    | some f' ↦ decode_messages count rest' f'
  ]
]

unfoldable pub decode_control_payload : Bytes → Option ControlFrame
decode_control_payload payload =
    if ltb (length payload) 3 || not (get_or payload 0 0 == control_payload_version)
    then none
    else decode_messages (read_u16 payload 1) (drop 3 payload) empty_frame
