-- ===== src/Protocol/Encode/Paths.antt =====
-- The message kinds that describe one path: capacity, latency, MTU and pressure.
use gatherlink.Prelude.{
  Option, none, some, Bool, true, false, not, ◌||◌, Result, raise_if, ◌>>=◌, ◌>>◌, ◌⊕◌,
}
use gatherlink.Prelude.Int.{ℤ, pos, ltb_ℤ}
use gatherlink.Bytes.{Bytes, append_byte, append_u16, append_u32, append_u64}
use gatherlink.Protocol.Constants.{u16_max}
use gatherlink.Protocol.ControlType
use gatherlink.Protocol.Frame.{
  PathCapacity, PathLatency, PathLatencyQuality, PathLatencyStats, PathMtu, PathPressure,
}
use gatherlink.Protocol.Limits.{
  is_outside, optional_u64, optional_u32, optional_u16, optional_metric_u32, counter_u32,
  valid_mtu_pair, encode_latency_source, encode_latency_confidence,
}

unfoldable pub encode_path_capacity : ℤ × PathCapacity → Result Bytes
encode_path_capacity (path_id, (tx_bps, rx_bps)) = do
  raise_if (is_outside 0 u16_max path_id) "path capacity path id out of range"
  append_byte (pos ControlType.path_capacity)
      ⊕ append_u16 (pos 18)
      ⊕ append_u16 path_id
      ⊕ (optional_u64 tx_bps >>= append_u64)
      ⊕ (optional_u64 rx_bps >>= append_u64)

unfoldable pub encode_path_latency : ℤ × PathLatency → Result Bytes
encode_path_latency (path_id, (tx_current_us, tx_mean_us, rx_current_us, rx_mean_us)) = do
  raise_if (is_outside 0 u16_max path_id) "path latency path id out of range"
  append_byte (pos ControlType.path_latency)
      ⊕ append_u16 (pos 18)
      ⊕ append_u16 path_id
      ⊕ (optional_u32 tx_current_us >>= append_u32)
      ⊕ (optional_u32 tx_mean_us >>= append_u32)
      ⊕ (optional_u32 rx_current_us >>= append_u32)
      ⊕ (optional_u32 rx_mean_us >>= append_u32)

unfoldable pub encode_path_latency_quality : ℤ × PathLatencyQuality → Result Bytes
encode_path_latency_quality (path_id, (source, confidence)) = do
  raise_if (is_outside 0 u16_max path_id) "path latency quality path id out of range"
  append_byte (pos ControlType.path_latency_quality)
      ⊕ append_u16 (pos 4)
      ⊕ append_u16 path_id
      ⊕ (encode_latency_source source >>= append_byte)
      ⊕ (encode_latency_confidence confidence >>= append_byte)

unfoldable pub encode_path_latency_stats : ℤ × PathLatencyStats → Result Bytes
encode_path_latency_stats
      (path_id, (rtt_us, clock_error_us, tx_jitter_us, rx_jitter_us, tx_p95_us, rx_p95_us)) =
    do
      raise_if (is_outside 0 u16_max path_id) "path latency stats path id out of range"
      append_byte (pos ControlType.path_latency_stats)
          ⊕ append_u16 (pos 26)
          ⊕ append_u16 path_id
          ⊕ (optional_metric_u32 rtt_us >>= append_u32)
          ⊕ (optional_metric_u32 clock_error_us >>= append_u32)
          ⊕ (optional_metric_u32 tx_jitter_us >>= append_u32)
          ⊕ (optional_metric_u32 rx_jitter_us >>= append_u32)
          ⊕ (optional_metric_u32 tx_p95_us >>= append_u32)
          ⊕ (optional_metric_u32 rx_p95_us >>= append_u32)

-- `a is None and b is None`
abbrev pub both_none : {A : Type 0} → Option A → Option A → Bool
both_none none none = true
both_none none (some b) = false
both_none (some a) b = false

unfoldable pub encode_path_mtu : ℤ × PathMtu → Result Bytes
encode_path_mtu (path_id, (tx_link_mtu, tx_frame_mtu, rx_link_mtu, rx_frame_mtu)) = do
  raise_if
      (is_outside 0 u16_max path_id
        || not (valid_mtu_pair tx_link_mtu tx_frame_mtu)
        || not (valid_mtu_pair rx_link_mtu rx_frame_mtu)
        || both_none tx_link_mtu rx_link_mtu)
      "path MTU value out of range"
  append_byte (pos ControlType.path_mtu)
      ⊕ append_u16 (pos 10)
      ⊕ append_u16 path_id
      ⊕ (optional_u16 tx_link_mtu >>= append_u16)
      ⊕ (optional_u16 tx_frame_mtu >>= append_u16)
      ⊕ (optional_u16 rx_link_mtu >>= append_u16)
      ⊕ (optional_u16 rx_frame_mtu >>= append_u16)

-- `_append_u32(output, _counter_u32(value))`
unfoldable pub append_counter : ℤ → Result Bytes
append_counter value = counter_u32 value >>= append_u32

unfoldable pub encode_path_pressure : ℤ × PathPressure → Result Bytes
encode_path_pressure (path_id, pressure) = do
  raise_if (is_outside 0 u16_max path_id) "path pressure path id out of range"
  raise_if (ltb_ℤ (pos 1_000_000) pressure.loss_ppm) "path pressure loss value out of range"
  append_byte (pos ControlType.path_pressure)
      ⊕ append_u16 (pos 58)
      ⊕ append_u16 path_id
      ⊕ append_counter pressure.loss_ppm
      ⊕ append_counter pressure.queue_depth_packets
      ⊕ append_counter pressure.queue_depth_bytes
      ⊕ append_counter pressure.queue_oldest_age_us
      ⊕ append_counter pressure.send_failures
      ⊕ append_counter pressure.receive_gaps
      ⊕ append_counter pressure.reorder_depth_packets
      ⊕ append_counter pressure.local_drops
      ⊕ append_counter pressure.scheduler_in_flight_packets
      ⊕ append_counter pressure.scheduler_in_flight_bytes
      ⊕ append_counter pressure.scheduler_predicted_delivery_us
      ⊕ append_counter pressure.reorder_buffer_packets
      ⊕ append_counter pressure.reorder_buffer_oldest_age_us
      ⊕ append_counter pressure.observed_packets
