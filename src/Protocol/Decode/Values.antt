-- ===== src/Protocol/Decode/Values.antt =====
-- The decoders of the values that describe a path or name an id. Numbers read from the wire are
-- never negative, so the tests stand on the native numbers.
use gatherlink.Prelude.{
  ℕ, ◌+◌, Option, none, some, Bool, not, ◌||◌, ◌&&◌, length, drop, get_or, ltb, ◌==◌, if◌then◌else◌,
}
use gatherlink.Prelude.Int.{ℤ, pos}
use gatherlink.Prelude.Maybe.{◌>>=◌}
use gatherlink.Bytes.{Bytes, read_u16, read_u32, read_u64}
use gatherlink.Text.{Text, utf8_decode}
use gatherlink.Protocol.Constants.{user_service_id_start}
use gatherlink.Protocol.Frame.{
  PathCapacity, PathLatency, PathLatencyQuality, PathLatencyStats, PathMtu, PathPressure,
}
use gatherlink.Protocol.Limits.{
  decode_optional, decode_latency_source, decode_latency_confidence, valid_mtu_pair,
}
use gatherlink.Protocol.Encode.Paths.{both_none}

-- `x is None`
abbrev pub is_none : {A : Type 0} → Option A → Bool
is_none o = both_none o none

-- The body that the four decoders share: the lowest id they accept.
unfoldable pub decode_named : ℕ → Bytes → Option (ℤ × Text)
decode_named lowest value =
    if ltb (length value) 3
    then none
    else let id = read_u16 value 0 in
      if ltb id lowest || not (length value == 3 + get_or value 2 0) then none else do
        name ← utf8_decode (drop 3 value)
        if length name == 0 then none else some (pos id, name)

unfoldable pub decode_path_metadata_value : Bytes → Option (ℤ × Text)
unfolding decode_named
decode_path_metadata_value = decode_named 0

unfoldable pub decode_service_metadata_value : Bytes → Option (ℤ × Text)
unfolding decode_named
decode_service_metadata_value = decode_named user_service_id_start

unfoldable pub decode_service_endpoint_assertion_value : Bytes → Option (ℤ × Text)
unfolding decode_named
decode_service_endpoint_assertion_value = decode_named user_service_id_start

unfoldable pub decode_service_disable_value : Bytes → Option (ℤ × Text)
unfolding decode_named
decode_service_disable_value = decode_named user_service_id_start

unfoldable pub decode_path_capacity_value : Bytes → Option (ℤ × PathCapacity)
decode_path_capacity_value value =
    if not (length value == 18)
    then none
    else some (
      pos (read_u16 value 0),
      (decode_optional (read_u64 value 2), decode_optional (read_u64 value 10)),
    )

unfoldable pub decode_path_latency_value : Bytes → Option (ℤ × PathLatency)
decode_path_latency_value value =
    if not (length value == 18)
    then none
    else some (
      pos (read_u16 value 0),
      (
        decode_optional (read_u32 value 2),
        decode_optional (read_u32 value 6),
        decode_optional (read_u32 value 10),
        decode_optional (read_u32 value 14),
      ),
    )

unfoldable pub decode_path_latency_quality_value : Bytes → Option (ℤ × PathLatencyQuality)
decode_path_latency_quality_value value =
    if not (length value == 4)
    then none
    else let source = decode_latency_source (get_or value 2 0) in
      let confidence = decode_latency_confidence (get_or value 3 0) in
      if is_none source && not (get_or value 2 0 == 0)
      then none
      else if is_none confidence && not (get_or value 3 0 == 0)
      then none
      else some (pos (read_u16 value 0), (source, confidence))

unfoldable pub decode_path_latency_stats_value : Bytes → Option (ℤ × PathLatencyStats)
decode_path_latency_stats_value value =
    if not (length value == 26)
    then none
    else some (
      pos (read_u16 value 0),
      (
        decode_optional (read_u32 value 2),
        decode_optional (read_u32 value 6),
        decode_optional (read_u32 value 10),
        decode_optional (read_u32 value 14),
        decode_optional (read_u32 value 18),
        decode_optional (read_u32 value 22),
      ),
    )

unfoldable pub decode_path_mtu_value : Bytes → Option (ℤ × PathMtu)
decode_path_mtu_value value =
    if not (length value == 10)
    then none
    else let tx_link_mtu = decode_optional (read_u16 value 2) in
      let tx_frame_mtu = decode_optional (read_u16 value 4) in
      let rx_link_mtu = decode_optional (read_u16 value 6) in
      let rx_frame_mtu = decode_optional (read_u16 value 8) in
      if not (valid_mtu_pair tx_link_mtu tx_frame_mtu)
        || not (valid_mtu_pair rx_link_mtu rx_frame_mtu)
        || both_none tx_link_mtu rx_link_mtu
      then none
      else some (pos (read_u16 value 0), (tx_link_mtu, tx_frame_mtu, rx_link_mtu, rx_frame_mtu))

unfoldable pub decode_path_pressure_value : Bytes → Option (ℤ × PathPressure)
decode_path_pressure_value value =
    if not (length value == 58)
    then none
    else let loss_ppm = read_u32 value 2 in
      if ltb 1_000_000 loss_ppm
      then none
      else some (
        pos (read_u16 value 0),
        record {
          loss_ppm = pos loss_ppm;
          queue_depth_packets = pos (read_u32 value 6);
          queue_depth_bytes = pos (read_u32 value 10);
          queue_oldest_age_us = pos (read_u32 value 14);
          send_failures = pos (read_u32 value 18);
          receive_gaps = pos (read_u32 value 22);
          reorder_depth_packets = pos (read_u32 value 26);
          local_drops = pos (read_u32 value 30);
          scheduler_in_flight_packets = pos (read_u32 value 34);
          scheduler_in_flight_bytes = pos (read_u32 value 38);
          scheduler_predicted_delivery_us = pos (read_u32 value 42);
          reorder_buffer_packets = pos (read_u32 value 46);
          reorder_buffer_oldest_age_us = pos (read_u32 value 50);
          observed_packets = pos (read_u32 value 54);
        },
      )
