-- ===== src/Scheduling/Scoring/Bounds.antt =====
-- The ranges of what python/gatherlink/scheduling/scoring.py computes, whatever the metrics are.
use gatherlink.Prelude.{◌≡◌, refl, Bool, true, false, none, if◌then◌else◌, arith}
use gatherlink.Prelude.Int.{ℤ, pos, negsuc, ◌≤ℤ◌, leb_ℤ, max_ℤ, min_ℤ, floor_div}
use gatherlink.Scheduling.Scoring.{
  min_path_weight, max_path_weight, stale_control_down_us, PathHealth, alive, degraded, down,
  ScoredMetrics, PathScore, clamp_weight, raw_weight, raw_confidence, scheduler_latency_us,
  health_of, is_degraded, weight_for, score_for, capacity_confidence_ppm, adaptive_weight,
  penalties, score_path,
}

abbrev IsWeight : ℤ → Type 0
IsWeight w = (min_path_weight ≤ℤ w) × (w ≤ℤ max_path_weight)

clamp_weight-IsWeight : (v : ℤ) → IsWeight (clamp_weight v)
unfolding clamp_weight
clamp_weight-IsWeight v = (ground arith, ground arith)

half-IsWeight : (w : ℤ) → IsWeight w → IsWeight (max_ℤ (pos 1) (floor_div w 2))
half-IsWeight (pos w) h = (ground arith, ground arith)
half-IsWeight (negsuc n) h = absurd (omega arith)

weight_for-IsWeight : (health : PathHealth) (w : ℤ) → IsWeight w → IsWeight (weight_for health w)
weight_for-IsWeight alive w h = h
weight_for-IsWeight degraded w h = half-IsWeight w h
weight_for-IsWeight down w h = (omega arith, omega arith)

confidence_range :
    (c : ℤ)
    → (pos 0 ≤ℤ max_ℤ (pos 0) (min_ℤ (pos 1000000) c))
      × (max_ℤ (pos 0) (min_ℤ (pos 1000000) c) ≤ℤ pos 1000000)
confidence_range c = (ground arith, ground arith)

not_negative : (s : ℤ) → pos 0 ≤ℤ max_ℤ (pos 0) s
not_negative s = ground arith

no_score : (s : ℤ) → max_ℤ (pos 0) (min_ℤ s (pos 0)) ≡ pos 0
no_score s = ground arith

gone_health :
    (stale : Bool) (other : PathHealth) → stale ≡ true → (if stale then down else other) ≡ down
gone_health stale other h = rw h refl

lost_values :
    (health : PathHealth) (w s : ℤ)
    → health ≡ down
    → (weight_for health w ≡ min_path_weight) × (max_ℤ (pos 0) (score_for health s) ≡ pos 0)
lost_values alive w s h = absurd (cc h)
lost_values degraded w s h = absurd (cc h)
lost_values down w s h = (refl, no_score s)

-- A weight that fits the executor, and a path that is down gets the least of all.
pub record IsScored (m : ScoredMetrics) (s : PathScore) : Type 0 where
  pub least : min_path_weight ≤ℤ s.weight
  pub most : s.weight ≤ℤ max_path_weight
  pub score : pos 0 ≤ℤ s.score
  pub confidence : (pos 0 ≤ℤ s.capacity_confidence_ppm) × (s.capacity_confidence_ppm ≤ℤ pos 1000000)
  pub lost :
      leb_ℤ stale_control_down_us m.stale_control_age_us ≡ true
      → (s.health ≡ down) × (s.weight ≡ min_path_weight) × (s.score ≡ pos 0)
  pub fine :
      s.health ≡ alive
      → (leb_ℤ stale_control_down_us m.stale_control_age_us ≡ false) × (is_degraded m ≡ false)

alive_health :
    (stale ill : Bool)
    → (if stale then down else if ill then degraded else alive) ≡ alive
    → (stale ≡ false) × (ill ≡ false)
alive_health stale ill h = ground arith

-- Whatever the metrics are and however quotients are rounded, the weight lies between 1 and
-- 65535, the score is not negative and the confidence lies between 0 and 1000000; a path
-- without control for 120 seconds is down, with a weight of 1 and a score of 0, and a path that
-- is alive meets no condition of a degraded one.
pub score_path-IsScored :
    (rounded : ℤ → ℤ → ℤ) (m : ScoredMetrics) → IsScored m (score_path rounded m)
unfolding score_path adaptive_weight capacity_confidence_ppm
score_path-IsScored rounded m =
    let raw =
      raw_weight rounded m.tx_capacity_bps (scheduler_latency_us m) m.loss_ppm m.queue_depth_packets
        m.queue_depth_bytes none in
    let weighed =
      weight_for-IsWeight (health_of m) (clamp_weight raw) (clamp_weight-IsWeight raw) in
    record {
      least = weighed.0;
      most = weighed.1;
      score = not_negative (score_for (health_of m) (penalties rounded m).0);
      confidence = confidence_range (raw_confidence m);
      lost = λ gone.
          let dead =
            gone_health (leb_ℤ stale_control_down_us m.stale_control_age_us)
              (if is_degraded m then degraded else alive) gone in
          let (weight, score) =
            lost_values (health_of m) (clamp_weight raw) (penalties rounded m).0 dead in
          (dead, weight, score);
      fine = λ well.
          alive_health (leb_ℤ stale_control_down_us m.stale_control_age_us) (is_degraded m) well;
    }
