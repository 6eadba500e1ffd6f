-- ===== src/Scheduling/Congestion.antt =====
-- python/gatherlink/scheduling/congestion.py: the pressure of a path, the pacing budget that it is
-- given, and the controller that keeps the decisions from flapping. The metrics are the five numbers
-- that the code reads from them.
pub mod Hysteresis
pub mod Budget
use gatherlink.Prelude.{ℕ, Bool, true, false, ◌||◌, Option, none, some, String, if◌then◌else◌}
use gatherlink.Prelude.Int.{ℤ, pos, ◌+ℤ◌, ◌*ℤ◌, leb_ℤ, ltb_ℤ, eq_ℤ, max_ℤ, floor_div}
use gatherlink.Prelude.TextDicts.{TextDict, lookup_text, insert_text}
use gatherlink.Text.{Text}

abbrev pub congestion_moderate_loss_ppm : ℤ
congestion_moderate_loss_ppm = pos 20000

abbrev pub congestion_high_loss_ppm : ℤ
congestion_high_loss_ppm = pos 80000

abbrev pub congestion_moderate_queue_age_us : ℤ
congestion_moderate_queue_age_us = pos 25000

abbrev pub congestion_high_queue_age_us : ℤ
congestion_high_queue_age_us = pos 100000

abbrev pub congestion_moderate_queue_packets : ℤ
congestion_moderate_queue_packets = pos 256

abbrev pub congestion_high_queue_packets : ℤ
congestion_high_queue_packets = pos 1024

abbrev pub congestion_moderate_send_failures : ℤ
congestion_moderate_send_failures = pos 8

abbrev pub congestion_high_send_failures : ℤ
congestion_high_send_failures = pos 64

-- `SchedulerCongestionPolicy`
pub data CongestionPolicy : Type 0 where
  off conservative adaptive volatile : CongestionPolicy

-- `CongestionPressureLevel`: 0, 1 or 2.
pub data PressureLevel : Type 0 where
  clean moderate high : PressureLevel

abbrev pub rank : PressureLevel → ℤ
rank clean = pos 0
rank moderate = pos 1
rank high = pos 2

-- `CONGESTION_POLICY_FACTORS[policy][level]`
abbrev pub congestion_policy_factor : CongestionPolicy → PressureLevel → ℤ
congestion_policy_factor off level = pos 100
congestion_policy_factor conservative clean = pos 90
congestion_policy_factor conservative moderate = pos 75
congestion_policy_factor conservative high = pos 55
congestion_policy_factor adaptive clean = pos 100
congestion_policy_factor adaptive moderate = pos 85
congestion_policy_factor adaptive high = pos 65
congestion_policy_factor volatile clean = pos 85
congestion_policy_factor volatile moderate = pos 70
congestion_policy_factor volatile high = pos 50

pub record CongestionFairnessDecision : Type 0 where
  pub pressure_level : PressureLevel
  pub pacing_budget_bps : ℤ
  pub reason : String

pub record CongestionFairnessPathState : Type 0 where
  pub pressure_level : PressureLevel
  pub pacing_budget_bps : ℤ
  pub reason : String
  pub pressure_windows : ℤ
  pub recovery_windows : ℤ

abbrev pub new_path_state : CongestionFairnessPathState
new_path_state = record {
  pressure_level = clean;
  pacing_budget_bps = pos 0;
  reason = "clean";
  pressure_windows = pos 0;
  recovery_windows = pos 0;
}

pub record CongestionFairnessController : Type 0 where
  pub pressure_windows_required : ℤ
  pub recovery_windows_required : ℤ
  pub paths : TextDict CongestionFairnessPathState

-- `_remember`
abbrev pub remember :
    CongestionFairnessPathState → CongestionFairnessDecision → CongestionFairnessPathState
remember state decision = record state {
  pressure_level = decision.pressure_level;
  pacing_budget_bps = decision.pacing_budget_bps;
  reason = decision.reason;
}

-- The remembered decision, given once more for another reason.
abbrev pub kept : CongestionFairnessPathState → String → CongestionFairnessDecision
kept state reason = record {
  pressure_level = state.pressure_level;
  pacing_budget_bps = state.pacing_budget_bps;
  reason = reason;
}

abbrev pub raise_pressure :
    ℤ
    → CongestionFairnessPathState
    → CongestionFairnessDecision
    → CongestionFairnessDecision × CongestionFairnessPathState
raise_pressure required old decision =
    let state = record old {
      recovery_windows = pos 0;
      pressure_windows = old.pressure_windows +ℤ pos 1;
    } in
    if leb_ℤ (max_ℤ (pos 1) required) state.pressure_windows
    then (decision, remember state decision)
    else (kept state "awaiting_pressure_confirmation", state)

abbrev pub stay :
    ℤ
    → CongestionFairnessPathState
    → CongestionFairnessDecision
    → CongestionFairnessDecision × CongestionFairnessPathState
stay required old decision =
    let state = record old { pressure_windows = max_ℤ old.pressure_windows required } in
    if ltb_ℤ (pos 0) (rank decision.pressure_level)
    then (decision, remember (record state { recovery_windows = pos 0 }) decision)
    else (
      decision,
      remember (record state { recovery_windows = state.recovery_windows +ℤ pos 1 }) decision,
    )

abbrev pub recover :
    ℤ
    → CongestionFairnessPathState
    → CongestionFairnessDecision
    → CongestionFairnessDecision × CongestionFairnessPathState
recover required old decision =
    let state = record old {
      pressure_windows = pos 0;
      recovery_windows = old.recovery_windows +ℤ pos 1;
    } in
    if ltb_ℤ state.recovery_windows (max_ℤ (pos 1) required)
    then (kept state "held_for_recovery_hysteresis", state)
    else (decision, remember state decision)

-- `stabilize` on the state of the path.
unfoldable pub stabilize_path :
    ℤ
    → ℤ
    → CongestionFairnessPathState
    → CongestionFairnessDecision
    → CongestionFairnessDecision × CongestionFairnessPathState
stabilize_path pressure_required recovery_required state decision =
    if ltb_ℤ (rank state.pressure_level) (rank decision.pressure_level)
    then raise_pressure pressure_required state decision
    else if eq_ℤ (rank decision.pressure_level) (rank state.pressure_level)
    then stay pressure_required state decision
    else recover recovery_required state decision

-- `self._paths.setdefault(path_name, CongestionFairnessPathState())`
abbrev pub state_of : CongestionFairnessController → Text → CongestionFairnessPathState
state_of controller path_name = elim (lookup_text path_name controller.paths) [
  | none ↦ new_path_state
  | some state ↦ state
]

unfoldable pub stabilize :
    CongestionFairnessController
    → Text
    → CongestionFairnessDecision
    → CongestionFairnessDecision × CongestionFairnessController
unfolding stabilize_path
stabilize controller path_name decision =
    let (stable, state) =
      stabilize_path controller.pressure_windows_required controller.recovery_windows_required
        (state_of controller path_name) decision in
    (stable, record controller { paths = insert_text path_name state controller.paths })

pub record CongestionMetrics : Type 0 where
  pub loss_ppm : ℤ
  pub queue_oldest_age_us : ℤ
  pub queue_depth_packets : ℤ
  pub send_failures : ℤ
  pub local_drops : ℤ

abbrev pub congestion_pressure_level : CongestionMetrics → PressureLevel
congestion_pressure_level metrics =
    if leb_ℤ congestion_high_loss_ppm metrics.loss_ppm
      || leb_ℤ congestion_high_queue_age_us metrics.queue_oldest_age_us
      || leb_ℤ congestion_high_queue_packets metrics.queue_depth_packets
      || leb_ℤ congestion_high_send_failures metrics.send_failures
      || ltb_ℤ (pos 0) metrics.local_drops
    then high
    else if leb_ℤ congestion_moderate_loss_ppm metrics.loss_ppm
        || leb_ℤ congestion_moderate_queue_age_us metrics.queue_oldest_age_us
        || leb_ℤ congestion_moderate_queue_packets metrics.queue_depth_packets
        || leb_ℤ congestion_moderate_send_failures metrics.send_failures
    then moderate
    else clean

abbrev pub is_off : CongestionPolicy → Bool
is_off off = true
is_off conservative = false
is_off adaptive = false
is_off volatile = false

abbrev pub no_pacing : String → CongestionFairnessDecision
no_pacing reason = record { pressure_level = clean; pacing_budget_bps = pos 0; reason = reason }

-- The budget for a capacity, and the reason that is given.
abbrev pub paced : CongestionPolicy → ℤ → PressureLevel → CongestionFairnessDecision
paced policy capacity clean = no_pacing "clean"
paced policy capacity level = record {
  pressure_level = level;
  pacing_budget_bps =
      max_ℤ (pos 1) (floor_div (capacity *ℤ congestion_policy_factor policy level) 100);
  reason = elim level [ high ↦ "high_pressure" | _ ↦ "moderate_pressure" ];
}

unfoldable pub compile_congestion_fairness :
    CongestionMetrics → CongestionPolicy → Option ℤ → CongestionFairnessDecision
compile_congestion_fairness metrics policy none = no_pacing "disabled"
compile_congestion_fairness metrics policy (some capacity) =
    if is_off policy || leb_ℤ capacity (pos 0)
    then no_pacing "disabled"
    else paced policy capacity (congestion_pressure_level metrics)
