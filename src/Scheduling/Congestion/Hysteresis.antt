-- ===== src/Scheduling/Congestion/Hysteresis.antt =====
-- How the controller of python/gatherlink/scheduling/congestion.py holds a decision, and when it lets
-- it go.
use gatherlink.Prelude.{
  ℕ, suc, ◌≡◌, refl, subst, ◌∙◌, true, false, List, [], ◌∷◌, All, ◌⊎◌, length, some, eq_list, arith,
}
use gatherlink.Prelude.Int.{ℤ, pos, ◌+ℤ◌, ltb_ℤ, eq_ℤ, max_ℤ, ◌≤ℤ◌, +ℤ_parts, int_laws}
use gatherlink.Prelude.TextDicts.{lookup_text, lookup_text-insert_text, lookup_text-insert_other}
use gatherlink.Text.{Text}
use gatherlink.Scheduling.Congestion.{
  rank, CongestionFairnessDecision, CongestionFairnessPathState, CongestionFairnessController,
  stabilize_path, state_of, stabilize,
}

-- What is given back is what is remembered, and its level is that of the decision or the old one.
abbrev pub IsRemembered :
    CongestionFairnessPathState
    → CongestionFairnessDecision
    → CongestionFairnessDecision × CongestionFairnessPathState
    → Type 0
IsRemembered state decision (stable, next) =
    (stable.pressure_level ≡ next.pressure_level)
    × (stable.pacing_budget_bps ≡ next.pacing_budget_bps)
    × (((stable.pressure_level ≡ decision.pressure_level)
          × (stable.pacing_budget_bps ≡ decision.pacing_budget_bps))
        ⊎ ((stable.pressure_level ≡ state.pressure_level)
            × (stable.pacing_budget_bps ≡ state.pacing_budget_bps)))

module _ (pressure_required recovery_required : ℤ) where
  stabilize_path-IsRemembered :
      (state : CongestionFairnessPathState) (decision : CongestionFairnessDecision)
      → IsRemembered state decision
          (stabilize_path pressure_required recovery_required state decision)
  unfolding stabilize_path
  stabilize_path-IsRemembered state decision = ground arith

  -- The decisions that are given for a list of decisions, one after another, and the state at the end.
  abbrev pub stabilize_all :
      CongestionFairnessPathState
      → List CongestionFairnessDecision
      → List CongestionFairnessDecision × CongestionFairnessPathState
  stabilize_all state [] = ([], state)
  stabilize_all state (decision ∷ decisions) =
      let (stable, next) = stabilize_path pressure_required recovery_required state decision in
      let (rest, end) = stabilize_all next decisions in (stable ∷ rest, end)

  abbrev pub IsLower : CongestionFairnessPathState → CongestionFairnessDecision → Type 0
  IsLower state decision = ltb_ℤ (rank decision.pressure_level) (rank state.pressure_level) ≡ true

  abbrev pub IsHeld : CongestionFairnessPathState → CongestionFairnessDecision → Type 0
  IsHeld state decision =
      (decision.pressure_level ≡ state.pressure_level)
      × (decision.pacing_budget_bps ≡ state.pacing_budget_bps)

  -- A lower decision that comes too early changes the counts of windows alone.
  abbrev waiting_state : CongestionFairnessPathState → CongestionFairnessPathState
  waiting_state state = record state {
    pressure_windows = pos 0;
    recovery_windows = state.recovery_windows +ℤ pos 1;
  }

  not_equal : (a b : ℤ) → ltb_ℤ a b ≡ true → (ltb_ℤ b a ≡ false) × (eq_ℤ a b ≡ false)
  not_equal a b h = ground arith

  stabilize_path-early :
      (state : CongestionFairnessPathState) (decision : CongestionFairnessDecision)
      → IsLower state decision
      → ltb_ℤ (state.recovery_windows +ℤ pos 1) (max_ℤ (pos 1) recovery_required) ≡ true
      → ((stabilize_path pressure_required recovery_required state decision).1
          ≡ waiting_state state)
        × IsHeld state (stabilize_path pressure_required recovery_required state decision).0
  unfolding stabilize_path
  stabilize_path-early state decision lower early =
      let (n, e) = not_equal (rank decision.pressure_level) (rank state.pressure_level) lower in
      rw (stabilize_path, n, e, early) (refl, (refl, refl))

  stabilize_path-late :
      (state : CongestionFairnessPathState) (decision : CongestionFairnessDecision)
      → IsLower state decision
      → ltb_ℤ (state.recovery_windows +ℤ pos 1) (max_ℤ (pos 1) recovery_required) ≡ false
      → (stabilize_path pressure_required recovery_required state decision).0 ≡ decision
  unfolding stabilize_path
  stabilize_path-late state decision lower late =
      let (n, e) = not_equal (rank decision.pressure_level) (rank state.pressure_level) lower in
      rw (stabilize_path, n, e, late) refl

  early_step : (r : ℤ) (n : ℕ) → ltb_ℤ (r +ℤ pos 1) (r +ℤ pos (suc (suc n))) ≡ true
  early_step r n = ground (arith, +ℤ_parts r (pos 1), +ℤ_parts r (pos (suc (suc n))))

  same_sum : (r : ℤ) (n : ℕ) → r +ℤ pos 1 +ℤ pos (suc n) ≡ r +ℤ pos (suc (suc n))
  same_sum r n = grind int_laws

  irreflexive : (a : ℤ) → ltb_ℤ a a ≡ false
  irreflexive a = ground arith

  -- When decisions of a lower level than the remembered one come one after another, and the
  -- last of them completes the required number of windows, all but the last are answered with
  -- the remembered level and budget, and the last is adopted.
  pub stabilize_all-recovers :
      (decisions : List CongestionFairnessDecision) (state : CongestionFairnessPathState)
      (last : CongestionFairnessDecision)
      → All (IsLower state) decisions
      → IsLower state last
      → state.recovery_windows +ℤ pos (suc (length decisions)) ≡ max_ℤ (pos 1) recovery_required
      → All (IsHeld state) (stabilize_all state decisions).0
        × ((stabilize_path pressure_required recovery_required
              (stabilize_all state decisions).1
              last).0
            ≡ last)
  stabilize_all-recovers [] state last lower lower_last h = (
    tt,
    stabilize_path-late state last lower_last (
        subst (λ q. ltb_ℤ (state.recovery_windows +ℤ pos 1) q ≡ false) h
          (irreflexive (state.recovery_windows +ℤ pos 1))),
  )
  stabilize_all-recovers (d ∷ ds) state last lower lower_last h =
      let (next, held) = stabilize_path-early state d lower.0 (
        subst (λ q. ltb_ℤ (state.recovery_windows +ℤ pos 1) q ≡ true) h
          (early_step state.recovery_windows (length ds))) in
      let (rest, adopted) =
        stabilize_all-recovers ds (waiting_state state) last lower.1 lower_last
          (same_sum state.recovery_windows (length ds) ∙ h) in
      rw next ((held, rest), adopted)

  -- When the count of pressure windows is not negative, and a decision at the remembered level
  -- is followed by one of a higher level, the second is adopted at once, however many pressure
  -- windows are required.
  pub stabilize_path-rises_at_once :
      (state : CongestionFairnessPathState) (first second : CongestionFairnessDecision)
      → pos 0 ≤ℤ state.pressure_windows
      → first.pressure_level ≡ state.pressure_level
      → ltb_ℤ (rank first.pressure_level) (rank second.pressure_level) ≡ true
      → (stabilize_path pressure_required recovery_required
          (stabilize_path pressure_required recovery_required state first).1
          second).0
        ≡ second
  unfolding stabilize_path
  stabilize_path-rises_at_once state first second h same higher =
      ground (arith, +ℤ_parts (max_ℤ state.pressure_windows pressure_required) (pos 1))

-- When a decision for a path is stabilized, the level and the budget that are given back are
-- those that are remembered for the path, they are those of the decision or those remembered
-- before, and nothing changes for a path of another name.
pub stabilize-IsRemembered :
    (controller : CongestionFairnessController) (name : Text)
    (decision : CongestionFairnessDecision)
    → ((state : CongestionFairnessPathState) × (lookup_text name
            (stabilize controller name decision).1.paths
          ≡ some state)
        × IsRemembered
            (state_of controller name)
            decision
            ((stabilize controller name decision).0, state))
      × ((other : Text)
          → eq_list other name ≡ false
          → lookup_text other (stabilize controller name decision).1.paths
            ≡ lookup_text other controller.paths)
unfolding stabilize
stabilize-IsRemembered controller name decision =
    let pressure = controller.pressure_windows_required in
    let recovery = controller.recovery_windows_required in
    let out = stabilize_path pressure recovery (state_of controller name) decision in
    (
      (
        out.1,
        lookup_text-insert_text name out.1 controller.paths,
        stabilize_path-IsRemembered pressure recovery (state_of controller name) decision,
      ),
      λ other apart. lookup_text-insert_other other name out.1 controller.paths apart,
    )
