-- ===== src/Protocol/RoundTrip/Pressure.antt =====
-- Path latency statistics and path pressure.
use gatherlink.Prelude.{◌≡◌, ◌++◌, Option, ok, arith}
use gatherlink.Prelude.Int.{ℤ, pos, pos_part, ltb_ℤ}
use gatherlink.Bytes.{Bytes, to_be, read_u16, read_u32}
use gatherlink.Protocol.Frame.{PathPressure}
use gatherlink.Protocol.ControlType
use gatherlink.Protocol.Constants.{u16_max}
use gatherlink.Protocol.Limits.{is_outside}
use gatherlink.Protocol.Encode.Paths.{encode_path_latency_stats, encode_path_pressure}
use gatherlink.Protocol.Decode.Values.{decode_path_latency_stats_value, decode_path_pressure_value}
use gatherlink.Protocol.RoundTrip.Sends.{Sends, or_zero, IsNonzeroMetric}
use gatherlink.Protocol.RoundTrip.Writes.{
  guarded, ◌then◌, writes_byte, writes_u16, writes_optional_metric, writes_counter,
}

stats_bytes : ℤ → Option ℤ → Option ℤ → Option ℤ → Option ℤ → Option ℤ → Option ℤ → Bytes
stats_bytes id a b c d e f =
    to_be 2 (pos_part id)
    ++ (to_be 4 (or_zero a)
        ++ (to_be 4 (or_zero b)
            ++ (to_be 4 (or_zero c)
                ++ (to_be 4 (or_zero d) ++ (to_be 4 (or_zero e) ++ to_be 4 (or_zero f))))))

pub encode_path_latency_stats-Sends :
    (id : ℤ) (a b c d e f : Option ℤ) {bs : Bytes}
    → IsNonzeroMetric a
      × IsNonzeroMetric b
      × IsNonzeroMetric c
      × IsNonzeroMetric d
      × IsNonzeroMetric e
      × IsNonzeroMetric f
    → encode_path_latency_stats (id, (a, b, c, d, e, f)) ≡ ok bs
    → Sends ControlType.path_latency_stats decode_path_latency_stats_value
        (id, (a, b, c, d, e, f))
        bs
unfolding encode_path_latency_stats stats_bytes
encode_path_latency_stats-Sends id a b c d e f {bs} nonzero h =
    let w = guarded _ _ (
      writes_byte (pos ControlType.path_latency_stats)
      then writes_u16 (pos 26)
      then writes_u16 id
      then writes_optional_metric a nonzero.0
      then writes_optional_metric b nonzero.1
      then writes_optional_metric c nonzero.2
      then writes_optional_metric d nonzero.3
      then writes_optional_metric e nonzero.4
      then writes_optional_metric f nonzero.5) in
    let (eq, facts) = w.at bs h in
    (
      stats_bytes id a b c d e f,
      unfold to_be in eq,
      unfold to_be in omega arith,
      unfold decode_path_latency_stats_value to_be read_u16 read_u32 in ground arith,
    )

pressure_bytes : ℤ → PathPressure → Bytes
pressure_bytes id p =
    to_be 2 (pos_part id)
    ++ (to_be 4 (pos_part p.loss_ppm)
        ++ (to_be 4 (pos_part p.queue_depth_packets)
            ++ (to_be 4 (pos_part p.queue_depth_bytes)
                ++ (to_be 4 (pos_part p.queue_oldest_age_us)
                    ++ (to_be 4 (pos_part p.send_failures)
                        ++ (to_be 4 (pos_part p.receive_gaps)
                            ++ (to_be 4 (pos_part p.reorder_depth_packets)
                                ++ (to_be 4 (pos_part p.local_drops)
                                    ++ (to_be 4 (pos_part p.scheduler_in_flight_packets)
                                        ++ (to_be 4 (pos_part p.scheduler_in_flight_bytes)
                                            ++ (to_be 4 (pos_part p.scheduler_predicted_delivery_us)
                                                ++ (to_be 4 (pos_part p.reorder_buffer_packets)
                                                    ++ (to_be 4
                                                          (pos_part p.reorder_buffer_oldest_age_us)
                                                        ++ to_be 4 (
                                                            pos_part
                                                            p.observed_packets))))))))))))))

pub encode_path_pressure-Sends :
    (id : ℤ) (p : PathPressure) {bs : Bytes}
    → encode_path_pressure (id, p) ≡ ok bs
    → Sends ControlType.path_pressure decode_path_pressure_value (id, p) bs
unfolding encode_path_pressure pressure_bytes
encode_path_pressure-Sends id p {bs} h =
    let w = guarded (is_outside 0 u16_max id) "path pressure path id out of range" (
      guarded (ltb_ℤ (pos 1_000_000) p.loss_ppm) "path pressure loss value out of range" (
        writes_byte (pos ControlType.path_pressure)
        then writes_u16 (pos 58)
        then writes_u16 id
        then writes_counter p.loss_ppm
        then writes_counter p.queue_depth_packets
        then writes_counter p.queue_depth_bytes
        then writes_counter p.queue_oldest_age_us
        then writes_counter p.send_failures
        then writes_counter p.receive_gaps
        then writes_counter p.reorder_depth_packets
        then writes_counter p.local_drops
        then writes_counter p.scheduler_in_flight_packets
        then writes_counter p.scheduler_in_flight_bytes
        then writes_counter p.scheduler_predicted_delivery_us
        then writes_counter p.reorder_buffer_packets
        then writes_counter p.reorder_buffer_oldest_age_us
        then writes_counter p.observed_packets)) in
    let (e, facts) = w.at bs h in
    (
      pressure_bytes id p,
      unfold to_be in e,
      unfold to_be in omega arith,
      unfold decode_path_pressure_value to_be read_u16 read_u32 in ground arith,
    )
