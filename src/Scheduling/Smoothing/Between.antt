-- ===== src/Scheduling/Smoothing/Between.antt =====
-- Where the smoothed values of python/gatherlink/scheduling/smoothing.py lie, and where they go when a
-- path reports the same value again and again.
use gatherlink.Prelude.{ℕ, zero, suc, ◌+◌, ◌*◌, ◌≤◌, ◌≡◌, refl, Option, none, some, arith}
use gatherlink.Prelude.Int.{
  ℤ, pos, negsuc, ◌+ℤ◌, ◌-ℤ◌, ◌*ℤ◌, ◌≤ℤ◌, floor_div, min_ℤ, max_ℤ, pos_part, neg_part, +ℤ_parts,
}
use gatherlink.Scheduling.Smoothing.{
  smooth_int, smooth_optional, PathSchedulerMetrics, smooth_metrics,
}

times_parts :
    (a : ℤ) (k : ℕ)
    → (pos_part (a *ℤ pos k) ≡ pos_part a * k) × (neg_part (a *ℤ pos k) ≡ neg_part a * k)
unfolding ◌*ℤ◌
times_parts (pos n) k = ground arith
times_parts (negsuc n) k = ground arith

-- a // 4, by its quotient.
quotient_bounds :
    (x : ℤ)
    → (4 * pos_part (floor_div x 4) + neg_part x ≤ pos_part x + 4 * neg_part (floor_div x 4))
      × (pos_part x + 4 * neg_part (floor_div x 4) ≤ 4 * pos_part (floor_div x 4) + 3 + neg_part x)
quotient_bounds x = ground arith

smooth_int_parts :
    (p c : ℤ)
    → (4 * pos_part (smooth_int p c) + 3 * neg_part p + neg_part c
        ≤ 3 * pos_part p + pos_part c + 4 * neg_part (smooth_int p c))
      × (3 * pos_part p + pos_part c + 4 * neg_part (smooth_int p c)
          ≤ 4 * pos_part (smooth_int p c) + 3 + 3 * neg_part p + neg_part c)
unfolding smooth_int ◌-ℤ◌
smooth_int_parts p c =
    let a = times_parts p 3 in
    let b = times_parts c 1 in
    let s = +ℤ_parts (p *ℤ pos 3) (c *ℤ pos 1) in
    let q = quotient_bounds (p *ℤ pos 3 +ℤ c *ℤ pos 1) in (omega arith, omega arith)

abbrev pub IsBetween : ℤ → ℤ → ℤ → Type 0
IsBetween a b v = (min_ℤ a b ≤ℤ v) × (v ≤ℤ max_ℤ a b)

-- A value that is missing is taken from the other side.
abbrev pub IsDamped : Option ℤ → Option ℤ → Option ℤ → Type 0
IsDamped previous none v = v ≡ previous
IsDamped none (some current) v = v ≡ some current
IsDamped (some previous) (some current) v = (s : ℤ) × (v ≡ some s) × IsBetween previous current s

smooth_int-IsBetween : (p c : ℤ) → IsBetween p c (smooth_int p c)
smooth_int-IsBetween p c = let parts = smooth_int_parts p c in (ground arith, ground arith)

smooth_optional-IsDamped : (p c : Option ℤ) → IsDamped p c (smooth_optional p c)
unfolding smooth_optional
smooth_optional-IsDamped p none = refl
smooth_optional-IsDamped none (some c) = refl
smooth_optional-IsDamped (some p) (some c) = (smooth_int p c, refl, smooth_int-IsBetween p c)

module _ (Facts : Type 0) where
  pub record IsSmoothed (p m s : PathSchedulerMetrics Facts) : Type 0 where
    pub tx_capacity_bps : IsDamped p.tx_capacity_bps m.tx_capacity_bps s.tx_capacity_bps
    pub rx_capacity_bps : IsDamped p.rx_capacity_bps m.rx_capacity_bps s.rx_capacity_bps
    pub tx_latency_current_us :
        IsDamped p.tx_latency_current_us m.tx_latency_current_us s.tx_latency_current_us
    pub tx_latency_mean_us : IsDamped p.tx_latency_mean_us m.tx_latency_mean_us s.tx_latency_mean_us
    pub rx_latency_current_us :
        IsDamped p.rx_latency_current_us m.rx_latency_current_us s.rx_latency_current_us
    pub rx_latency_mean_us : IsDamped p.rx_latency_mean_us m.rx_latency_mean_us s.rx_latency_mean_us
    pub loss_ppm : IsBetween p.loss_ppm m.loss_ppm s.loss_ppm
    pub tx_jitter_us : IsDamped p.tx_jitter_us m.tx_jitter_us s.tx_jitter_us
    pub rx_jitter_us : IsDamped p.rx_jitter_us m.rx_jitter_us s.rx_jitter_us
    pub facts : s.facts ≡ m.facts

  -- Each of the nine damped values lies between the previous and the current one where both are
  -- known, and is the known one where one is missing; all else is that of the current metrics.
  pub smooth_metrics-IsSmoothed :
      (p m : PathSchedulerMetrics Facts) → IsSmoothed p m (smooth_metrics Facts p m)
  unfolding smooth_metrics
  smooth_metrics-IsSmoothed p m = record {
    tx_capacity_bps = smooth_optional-IsDamped p.tx_capacity_bps m.tx_capacity_bps;
    rx_capacity_bps = smooth_optional-IsDamped p.rx_capacity_bps m.rx_capacity_bps;
    tx_latency_current_us =
        smooth_optional-IsDamped p.tx_latency_current_us m.tx_latency_current_us;
    tx_latency_mean_us = smooth_optional-IsDamped p.tx_latency_mean_us m.tx_latency_mean_us;
    rx_latency_current_us =
        smooth_optional-IsDamped p.rx_latency_current_us m.rx_latency_current_us;
    rx_latency_mean_us = smooth_optional-IsDamped p.rx_latency_mean_us m.rx_latency_mean_us;
    loss_ppm = smooth_int-IsBetween p.loss_ppm m.loss_ppm;
    tx_jitter_us = smooth_optional-IsDamped p.tx_jitter_us m.tx_jitter_us;
    rx_jitter_us = smooth_optional-IsDamped p.rx_jitter_us m.rx_jitter_us;
    facts = refl;
  }

-- The value after `n` passes in which the path reports `current`.
abbrev pub smooth_again : ℕ → ℤ → ℤ → ℤ
smooth_again zero previous current = previous
smooth_again (suc n) previous current = smooth_again n (smooth_int previous current) current

nearer :
    (n : ℕ) (p c : ℤ)
    → p ≤ℤ c +ℤ pos (suc n)
    → c ≤ℤ p +ℤ pos (suc n + 3)
    → (smooth_int p c ≤ℤ c +ℤ pos n) × (c ≤ℤ smooth_int p c +ℤ pos (n + 3))
nearer n p c above below =
    let parts = smooth_int_parts p c in
    let a = +ℤ_parts c (pos (suc n)) in
    let b = +ℤ_parts p (pos (suc n + 3)) in
    let a' = +ℤ_parts c (pos n) in
    let b' = +ℤ_parts (smooth_int p c) (pos (n + 3)) in (omega arith, omega arith)

-- When a value is at most `n` above or `n` + 3 below what a path reports, it is no more than 3
-- below and not above it after `n` passes with that report.
pub smooth_again-IsNear :
    (n : ℕ) (previous current : ℤ)
    → previous ≤ℤ current +ℤ pos n
    → current ≤ℤ previous +ℤ pos (n + 3)
    → (smooth_again n previous current ≤ℤ current)
      × (current ≤ℤ smooth_again n previous current +ℤ pos 3)
smooth_again-IsNear zero p c above below = (let a = +ℤ_parts c (pos 0) in omega arith, below)
smooth_again-IsNear (suc n) p c above below =
    let (a, b) = nearer n p c above below in smooth_again-IsNear n (smooth_int p c) c a b
