-- ===== src/Scheduling/Congestion/Budget.antt =====
-- The pacing budget that python/gatherlink/scheduling/congestion.py compiles from the pressure of a
-- path.
use gatherlink.Prelude.{ℕ, ◌*◌, ◌/◌, ◌≤◌, ◌≡◌, refl, false, some, arith}
use native.Mathlib.Nat.{mul-le-mul_left}
use gatherlink.Prelude.Int.{ℤ, pos, negsuc, ◌*ℤ◌, leb_ℤ, ◌≤ℤ◌, max_ℤ, floor_div}
use gatherlink.Scheduling.Congestion.{
  PressureLevel, clean, moderate, high, CongestionPolicy, off, conservative, adaptive, volatile,
  CongestionMetrics, congestion_pressure_level, is_off, paced, compile_congestion_fairness,
}

-- Pacing is off for a clean path; else the budget is positive and no more than the capacity.
abbrev pub IsBudget : ℤ → PressureLevel → ℤ → Type 0
IsBudget capacity clean budget = budget ≡ pos 0
IsBudget capacity moderate budget = (pos 1 ≤ℤ budget) × (budget ≤ℤ capacity)
IsBudget capacity high budget = (pos 1 ≤ℤ budget) × (budget ≤ℤ capacity)

max_bounds :
    (c x : ℕ) → 1 ≤ c → x ≤ c → (pos 1 ≤ℤ max_ℤ (pos 1) (pos x)) × (max_ℤ (pos 1) (pos x) ≤ℤ pos c)
max_bounds c x h k = ground arith

pos_times : (c f : ℕ) → pos c *ℤ pos f ≡ pos (c * f)
unfolding ◌*ℤ◌
pos_times c f = ground arith

share-IsBudget :
    (c f : ℕ)
    → 1 ≤ c
    → f ≤ 100
    → (pos 1 ≤ℤ max_ℤ (pos 1) (floor_div (pos c *ℤ pos f) 100))
      × (max_ℤ (pos 1) (floor_div (pos c *ℤ pos f) 100) ≤ℤ pos c)
share-IsBudget c f h k =
    let small : c * f ≤ c * 100 = mul-le-mul_left c k in
    let less : c * f / 100 ≤ c = omega arith in
    rw (pos_times c f) (max_bounds c (c * f / 100) h less)

paced-IsBudget :
    (policy : CongestionPolicy) (c : ℕ) (level : PressureLevel)
    → is_off policy ≡ false
    → 1 ≤ c
    → ((paced policy (pos c) level).pressure_level ≡ level)
      × IsBudget (pos c) level (paced policy (pos c) level).pacing_budget_bps
paced-IsBudget off c level on positive = absurd (cc on)
paced-IsBudget policy c clean on positive = (refl, refl)
paced-IsBudget conservative c moderate on positive =
    (refl, share-IsBudget c 75 positive (omega arith))
paced-IsBudget conservative c high on positive = (refl, share-IsBudget c 55 positive (omega arith))
paced-IsBudget adaptive c moderate on positive = (refl, share-IsBudget c 85 positive (omega arith))
paced-IsBudget adaptive c high on positive = (refl, share-IsBudget c 65 positive (omega arith))
paced-IsBudget volatile c moderate on positive = (refl, share-IsBudget c 70 positive (omega arith))
paced-IsBudget volatile c high on positive = (refl, share-IsBudget c 50 positive (omega arith))

is_positive : (c : ℕ) → 1 ≤ c → leb_ℤ (pos c) (pos 0) ≡ false
is_positive c h = ground arith

-- When the policy is not off and the capacity is at least 1, the decision has the level of the
-- metrics; its budget is 0 for a clean path, and else lies between 1 and the capacity.
pub compile_congestion_fairness-IsBudget :
    (metrics : CongestionMetrics) (policy : CongestionPolicy) (capacity : ℤ)
    → is_off policy ≡ false
    → pos 1 ≤ℤ capacity
    → ((compile_congestion_fairness metrics policy (some capacity)).pressure_level
        ≡ congestion_pressure_level metrics)
      × IsBudget capacity
          (congestion_pressure_level metrics)
          (compile_congestion_fairness metrics policy (some capacity)).pacing_budget_bps
unfolding compile_congestion_fairness
compile_congestion_fairness-IsBudget metrics policy (negsuc n) on positive = absurd (omega arith)
compile_congestion_fairness-IsBudget metrics policy (pos c) on positive =
    let some_capacity : 1 ≤ c = omega arith in
    let alive = is_positive c some_capacity in
    rw (compile_congestion_fairness, on, alive)
      (paced-IsBudget policy c (congestion_pressure_level metrics) on some_capacity)
