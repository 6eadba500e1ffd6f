-- ===== src/Protocol/Encode.antt =====
-- `encode_control_payload` of python/gatherlink/protocol.py. The `output` bytearray is local, so an
-- encoder is the bytes that it appends; `⊕` keeps the order of the appends and of the exceptions.
pub mod Names
pub mod Paths
pub mod Events
use gatherlink.Prelude.{
  ℕ, ◌+◌, List, [], ◌∷◌, Option, none, some, length, ltb, ◌==◌, Result, ok, raise_if, ◌>>=◌, ◌>>◌,
  ◌⊕◌,
}
use gatherlink.Prelude.Int.{ℤ, pos}
use gatherlink.Bytes.{Bytes, append_byte, append_u16}
use gatherlink.Protocol.Constants.{control_payload_version, u16_max}
use gatherlink.Protocol.Frame.{ControlFrame}
use Names.{
  write_each, encode_path_metadata, encode_service_metadata, encode_service_endpoint_assertions,
  encode_service_disables,
}
use Paths.{
  encode_path_capacity, encode_path_latency, encode_path_latency_quality, encode_path_latency_stats,
  encode_path_mtu, encode_path_pressure,
}
use Events.{
  encode_service_scheduler_policies, encode_scheduler_status, encode_data_transmit_samples,
  encode_internal_clock_sync, encode_sink_time,
}

unfoldable pub status_count : {A : Type 0} → Option A → ℕ
status_count none = 0
status_count (some status) = 1

unfoldable pub message_count : ControlFrame → ℕ
unfolding status_count
message_count f =
    length f.path_metadata
    + length f.service_metadata
    + length f.service_endpoint_assertions
    + length f.service_disables
    + length f.service_scheduler_policies
    + length f.path_capacity_bps
    + length f.path_latency_us
    + length f.path_latency_quality
    + length f.path_latency_stats
    + length f.path_mtu
    + length f.path_pressure
    + status_count f.scheduler_status
    + length f.data_transmit_samples
    + length f.internal_clock_sync
    + length f.sink_time

-- The fifteen calls of the per-kind encoders.
unfoldable pub encode_messages : ControlFrame → Result Bytes
encode_messages f =
    write_each encode_path_metadata f.path_metadata
    ⊕ write_each encode_service_metadata f.service_metadata
    ⊕ write_each encode_service_endpoint_assertions f.service_endpoint_assertions
    ⊕ write_each encode_service_disables f.service_disables
    ⊕ write_each encode_service_scheduler_policies f.service_scheduler_policies
    ⊕ write_each encode_path_capacity f.path_capacity_bps
    ⊕ write_each encode_path_latency f.path_latency_us
    ⊕ write_each encode_path_latency_quality f.path_latency_quality
    ⊕ write_each encode_path_latency_stats f.path_latency_stats
    ⊕ write_each encode_path_mtu f.path_mtu
    ⊕ write_each encode_path_pressure f.path_pressure
    ⊕ encode_scheduler_status f.scheduler_status
    ⊕ write_each encode_data_transmit_samples f.data_transmit_samples
    ⊕ write_each encode_internal_clock_sync f.internal_clock_sync
    ⊕ write_each encode_sink_time f.sink_time

-- The frame holds the arguments, `None` and an empty dict or list being one.
unfoldable pub encode_control_payload : ControlFrame → Result Bytes
unfolding append_byte append_u16
encode_control_payload f = do
  raise_if (message_count f == 0) "control payload must include at least one message"
  output ←
      append_byte (pos control_payload_version)
      ⊕ append_u16 (pos (message_count f))
      ⊕ encode_messages f
  raise_if (ltb u16_max (length output)) "control payload is too large"
  ok output
