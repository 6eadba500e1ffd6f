-- ===== src/Protocol/RoundTrip/PathLoops.antt =====
-- The kinds that describe a path, loop by loop.
use gatherlink.Prelude.{[], length, All, Dict, HasDistinctKeys}
use gatherlink.Protocol.ControlType
use gatherlink.Protocol.Frame.{
  ControlFrame, PathCapacity, PathLatency, PathLatencyQuality, PathLatencyStats, PathMtu,
  PathPressure,
}
use gatherlink.Protocol.Encode.Names.{write_each}
use gatherlink.Protocol.Encode.Paths.{
  encode_path_capacity, encode_path_latency, encode_path_latency_quality, encode_path_latency_stats,
  encode_path_mtu, encode_path_pressure,
}
use gatherlink.Protocol.Decode.Values.{
  decode_path_capacity_value, decode_path_latency_value, decode_path_latency_quality_value,
  decode_path_latency_stats_value, decode_path_mtu_value, decode_path_pressure_value,
}
use gatherlink.Protocol.Decode.{apply_message}
use gatherlink.Protocol.RoundTrip.Sends.{HasNonzeroMetrics}
use gatherlink.Protocol.RoundTrip.Paths.{
  encode_path_capacity-Sends, encode_path_latency-Sends, encode_path_mtu-Sends,
}
use gatherlink.Protocol.RoundTrip.Quality.{encode_path_latency_quality-Sends}
use gatherlink.Protocol.RoundTrip.Pressure.{
  encode_path_latency_stats-Sends, encode_path_pressure-Sends,
}
use gatherlink.Protocol.RoundTrip.Carries.{Carries, Carries-dict, All_trivial}

module _ (g : ControlFrame) where
  pub Carries-path_capacity_bps :
      (es : Dict PathCapacity)
      → HasDistinctKeys es
      → Carries
          (write_each encode_path_capacity es)
          (length es)
          (record g { path_capacity_bps = [] })
          (record g { path_capacity_bps = es })
  Carries-path_capacity_bps es distinct =
      Carries-dict ControlType.path_capacity decode_path_capacity_value (λ v. Unit)
        encode_path_capacity (λ d. record g { path_capacity_bps = d })
        (λ k v good bs h. encode_path_capacity-Sends k v.0 v.1 h)
        (λ k v d value e. unfold apply_message in rw e) es distinct (All_trivial es)

  pub Carries-path_latency_us :
      (es : Dict PathLatency)
      → HasDistinctKeys es
      → Carries
          (write_each encode_path_latency es)
          (length es)
          (record g { path_latency_us = [] })
          (record g { path_latency_us = es })
  Carries-path_latency_us es distinct =
      Carries-dict ControlType.path_latency decode_path_latency_value (λ v. Unit)
        encode_path_latency (λ d. record g { path_latency_us = d })
        (λ k v good bs h. encode_path_latency-Sends k v.0 v.1 v.2 v.3 h)
        (λ k v d value e. unfold apply_message in rw e) es distinct (All_trivial es)

  pub Carries-path_latency_quality :
      (es : Dict PathLatencyQuality)
      → HasDistinctKeys es
      → Carries
          (write_each encode_path_latency_quality es)
          (length es)
          (record g { path_latency_quality = [] })
          (record g { path_latency_quality = es })
  Carries-path_latency_quality es distinct =
      Carries-dict ControlType.path_latency_quality decode_path_latency_quality_value (λ v. Unit)
        encode_path_latency_quality (λ d. record g { path_latency_quality = d })
        (λ k v good bs h. encode_path_latency_quality-Sends k v.0 v.1 h)
        (λ k v d value e. unfold apply_message in rw e) es distinct (All_trivial es)

  pub Carries-path_latency_stats :
      (es : Dict PathLatencyStats)
      → HasDistinctKeys es
      → All (λ e. HasNonzeroMetrics e.1) es
      → Carries
          (write_each encode_path_latency_stats es)
          (length es)
          (record g { path_latency_stats = [] })
          (record g { path_latency_stats = es })
  Carries-path_latency_stats es distinct good =
      Carries-dict ControlType.path_latency_stats decode_path_latency_stats_value HasNonzeroMetrics
        encode_path_latency_stats (λ d. record g { path_latency_stats = d })
        (λ k v good bs h. encode_path_latency_stats-Sends k v.0 v.1 v.2 v.3 v.4 v.5 good h)
        (λ k v d value e. unfold apply_message in rw e) es distinct good

  pub Carries-path_mtu :
      (es : Dict PathMtu)
      → HasDistinctKeys es
      → Carries
          (write_each encode_path_mtu es)
          (length es)
          (record g { path_mtu = [] })
          (record g { path_mtu = es })
  Carries-path_mtu es distinct =
      Carries-dict ControlType.path_mtu decode_path_mtu_value (λ v. Unit) encode_path_mtu
        (λ d. record g { path_mtu = d })
        (λ k v good bs h. encode_path_mtu-Sends k v.0 v.1 v.2 v.3 h)
        (λ k v d value e. unfold apply_message in rw e) es distinct (All_trivial es)

  pub Carries-path_pressure :
      (es : Dict PathPressure)
      → HasDistinctKeys es
      → Carries
          (write_each encode_path_pressure es)
          (length es)
          (record g { path_pressure = [] })
          (record g { path_pressure = es })
  Carries-path_pressure es distinct =
      Carries-dict ControlType.path_pressure decode_path_pressure_value (λ v. Unit)
        encode_path_pressure (λ d. record g { path_pressure = d })
        (λ k v good bs h. encode_path_pressure-Sends k v h)
        (λ k v d value e. unfold apply_message in rw e) es distinct (All_trivial es)
