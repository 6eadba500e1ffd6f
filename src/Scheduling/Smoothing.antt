-- ===== src/Scheduling/Smoothing.antt =====
-- python/gatherlink/scheduling/smoothing.py: the damping of path metrics over the reapply passes. Of
-- the metrics, the nine that are damped are numbers here, and `Facts` is all that is passed on.
pub mod Between
use gatherlink.Prelude.{
  ℕ, ◌+◌, Bool, not, List, [], ◌∷◌, Option, none, some, if◌then◌else◌, any, eq_list,
}
use gatherlink.Prelude.Int.{ℤ, pos, ◌+ℤ◌, ◌-ℤ◌, ◌*ℤ◌, floor_div}
use gatherlink.Prelude.TextDicts.{TextDict, lookup_text, insert_text, remove_text}
use gatherlink.Text.{Text}

abbrev pub smoothing_alpha_numerator : ℤ
smoothing_alpha_numerator = pos 1

-- It divides, and is positive.
abbrev pub smoothing_alpha_denominator : ℕ
smoothing_alpha_denominator = 4

unfoldable pub smooth_int : ℤ → ℤ → ℤ
smooth_int previous current =
    floor_div
      (previous *ℤ (pos smoothing_alpha_denominator -ℤ smoothing_alpha_numerator)
        +ℤ current *ℤ smoothing_alpha_numerator)
      smoothing_alpha_denominator

unfoldable pub smooth_optional : Option ℤ → Option ℤ → Option ℤ
unfolding smooth_int
smooth_optional previous none = previous
smooth_optional none (some current) = some current
smooth_optional (some previous) (some current) = some (smooth_int previous current)

module _ (Facts : Type 0) where
  pub record PathSchedulerMetrics : Type 0 where
    pub tx_capacity_bps : Option ℤ
    pub rx_capacity_bps : Option ℤ
    pub tx_latency_current_us : Option ℤ
    pub tx_latency_mean_us : Option ℤ
    pub rx_latency_current_us : Option ℤ
    pub rx_latency_mean_us : Option ℤ
    pub loss_ppm : ℤ
    pub tx_jitter_us : Option ℤ
    pub rx_jitter_us : Option ℤ
    pub facts : Facts

  pub record SchedulerTelemetrySmoother : Type 0 where
    pub previous : TextDict PathSchedulerMetrics
    pub samples : TextDict ℕ

  -- `metrics.model_copy(update={...})`
  unfoldable pub smooth_metrics : PathSchedulerMetrics → PathSchedulerMetrics → PathSchedulerMetrics
  unfolding smooth_optional
  smooth_metrics previous metrics = record metrics {
    tx_capacity_bps = smooth_optional previous.tx_capacity_bps metrics.tx_capacity_bps;
    rx_capacity_bps = smooth_optional previous.rx_capacity_bps metrics.rx_capacity_bps;
    tx_latency_current_us =
        smooth_optional previous.tx_latency_current_us metrics.tx_latency_current_us;
    tx_latency_mean_us = smooth_optional previous.tx_latency_mean_us metrics.tx_latency_mean_us;
    rx_latency_current_us =
        smooth_optional previous.rx_latency_current_us metrics.rx_latency_current_us;
    rx_latency_mean_us = smooth_optional previous.rx_latency_mean_us metrics.rx_latency_mean_us;
    loss_ppm = smooth_int previous.loss_ppm metrics.loss_ppm;
    tx_jitter_us = smooth_optional previous.tx_jitter_us metrics.tx_jitter_us;
    rx_jitter_us = smooth_optional previous.rx_jitter_us metrics.rx_jitter_us;
  }

  abbrev pub smoothed_after :
      Option PathSchedulerMetrics → PathSchedulerMetrics → PathSchedulerMetrics
  smoothed_after none metrics = metrics
  smoothed_after (some previous) metrics = smooth_metrics previous metrics

  -- `confidence`
  abbrev pub confidence : SchedulerTelemetrySmoother → Text → ℕ
  confidence smoother path_name = elim (lookup_text path_name smoother.samples) [
    | none ↦ 0
    | some n ↦ n
  ]

  -- The loop over the snapshot, with the smoothed paths so far.
  unfoldable pub smooth_paths :
      TextDict PathSchedulerMetrics
      → TextDict PathSchedulerMetrics
      → SchedulerTelemetrySmoother
      → TextDict PathSchedulerMetrics × SchedulerTelemetrySmoother
  smooth_paths [] smoothed smoother = (smoothed, smoother)
  smooth_paths ((path_name, metrics) ∷ paths) smoothed smoother =
      let new = smoothed_after (lookup_text path_name smoother.previous) metrics in
      smooth_paths paths (insert_text path_name new smoothed) (record {
        previous = insert_text path_name new smoother.previous;
        samples = insert_text path_name (confidence smoother path_name + 1) smoother.samples;
      })

  -- `set(self._previous) - set(snapshot.paths)`
  abbrev pub stale_paths : TextDict PathSchedulerMetrics → TextDict PathSchedulerMetrics → List Text
  stale_paths [] snapshot = []
  stale_paths ((path_name, metrics) ∷ previous) snapshot =
      let rest = stale_paths previous snapshot in
      elim (lookup_text path_name snapshot) [ none ↦ path_name ∷ rest | some found ↦ rest ]

  abbrev pub forget : List Text → SchedulerTelemetrySmoother → SchedulerTelemetrySmoother
  forget [] smoother = smoother
  forget (path_name ∷ names) smoother = forget names (record {
    previous = remove_text path_name smoother.previous;
    samples = remove_text path_name smoother.samples;
  })

  unfoldable pub smooth :
      SchedulerTelemetrySmoother
      → TextDict PathSchedulerMetrics
      → TextDict PathSchedulerMetrics × SchedulerTelemetrySmoother
  unfolding smooth_paths
  smooth smoother snapshot =
      let (smoothed, seen) = smooth_paths snapshot [] smoother in
      (smoothed, forget (stale_paths seen.previous snapshot) seen)
