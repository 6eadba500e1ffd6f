-- ===== src/Scheduling/Tests.antt =====
-- Runs of python/gatherlink/scheduling on samples.
use gatherlink.Prelude.{ℕ, ◌≡◌, ◌≤◌, refl, false, [], ◌∷◌, All, some, none, map, arith}
use gatherlink.Prelude.Int.{pos, ◌+ℤ◌, ◌≤ℤ◌}
use gatherlink.Prelude.TextDicts.{lookup_text}
use gatherlink.Scheduling.Congestion.{
  high, clean, adaptive, CongestionMetrics, CongestionFairnessDecision, CongestionFairnessPathState,
  CongestionFairnessController, stabilize_path, stabilize, state_of, congestion_pressure_level,
  compile_congestion_fairness,
}
use gatherlink.Scheduling.Congestion.Hysteresis.{
  IsRemembered, IsHeld, stabilize_all, stabilize_all-recovers, stabilize_path-rises_at_once,
  stabilize-IsRemembered,
}
use gatherlink.Scheduling.Congestion.Budget.{IsBudget, compile_congestion_fairness-IsBudget}
use gatherlink.Scheduling.Priority.{
  critical, bulk, RuntimeServiceConfig, service_poll_order, service_poll_plan,
}
use gatherlink.Scheduling.Priority.Fair.{occurrences, slots_of, service_poll_order-IsServed}
use gatherlink.Scheduling.Priority.Default.{service_poll_plan-default}
use gatherlink.Scheduling.Scoring.{ScoredMetrics, score_path}
use gatherlink.Scheduling.Scoring.Bounds.{IsScored, score_path-IsScored}
use gatherlink.Scheduling.Smoothing.{PathSchedulerMetrics, smooth_metrics}
use gatherlink.Scheduling.Smoothing.Between.{
  IsSmoothed, smooth_metrics-IsSmoothed, smooth_again, smooth_again-IsNear,
}

abbrev high_decision : CongestionFairnessDecision
high_decision = record {
  pressure_level = high;
  pacing_budget_bps = pos 50;
  reason = "high_pressure";
}

abbrev clean_decision : CongestionFairnessDecision
clean_decision = record { pressure_level = clean; pacing_budget_bps = pos 0; reason = "clean" }

abbrev limited_state : CongestionFairnessPathState
limited_state = record {
  pressure_level = high;
  pacing_budget_bps = pos 50;
  reason = "high_pressure";
  pressure_windows = pos 1;
  recovery_windows = pos 0;
}

-- Three clean windows: the first two are held.
stabilize_all-recovers_example :
    All
      (IsHeld (pos 1) (pos 3) limited_state)
      (stabilize_all (pos 1) (pos 3) limited_state (clean_decision ∷ clean_decision ∷ [])).0
    × ((stabilize_path
          (pos 1)
          (pos 3)
          (stabilize_all (pos 1) (pos 3) limited_state (clean_decision ∷ clean_decision ∷ [])).1
          clean_decision).0
        ≡ clean_decision)
unfolding ◌+ℤ◌
stabilize_all-recovers_example =
    stabilize_all-recovers (pos 1) (pos 3) (clean_decision ∷ clean_decision ∷ []) limited_state
      clean_decision (refl, (refl, tt)) refl refl

-- Ten windows are asked for, and one is enough.
stabilize_path-rises_at_once_example :
    (stabilize_path
      (pos 10)
      (pos 3)
      (stabilize_path
        (pos 10)
        (pos 3)
        (record limited_state { pressure_level = clean; pressure_windows = pos 0 })
        clean_decision).1
      high_decision).0
    ≡ high_decision
stabilize_path-rises_at_once_example =
    stabilize_path-rises_at_once (pos 10) (pos 3)
      (record limited_state { pressure_level = clean; pressure_windows = pos 0 }) clean_decision
      high_decision (omega arith) refl refl

abbrev new_controller : CongestionFairnessController
new_controller = record {
  pressure_windows_required = pos 1;
  recovery_windows_required = pos 3;
  paths = [];
}

stabilize-IsRemembered_example :
    ((state : CongestionFairnessPathState) × (lookup_text
          (97 ∷ [])
          (stabilize new_controller (97 ∷ []) high_decision).1.paths
        ≡ some state)
      × IsRemembered
          (state_of new_controller (97 ∷ []))
          high_decision
          ((stabilize new_controller (97 ∷ []) high_decision).0, state))
    × ((other : gatherlink.Text.Text)
        → gatherlink.Prelude.eq_list other (97 ∷ []) ≡ false
        → lookup_text other (stabilize new_controller (97 ∷ []) high_decision).1.paths
          ≡ lookup_text other [])
stabilize-IsRemembered_example = stabilize-IsRemembered new_controller (97 ∷ []) high_decision

abbrev lossy : CongestionMetrics
lossy = record {
  loss_ppm = pos 90000;
  queue_oldest_age_us = pos 0;
  queue_depth_packets = pos 0;
  send_failures = pos 0;
  local_drops = pos 0;
}

compile_congestion_fairness-IsBudget_example :
    ((compile_congestion_fairness lossy adaptive (some (pos 1000))).pressure_level
      ≡ congestion_pressure_level lossy)
    × IsBudget
        (pos 1000)
        (congestion_pressure_level lossy)
        (compile_congestion_fairness lossy adaptive (some (pos 1000))).pacing_budget_bps
compile_congestion_fairness-IsBudget_example =
    compile_congestion_fairness-IsBudget lossy adaptive (pos 1000) refl (omega arith)

abbrev services : gatherlink.Prelude.List RuntimeServiceConfig
services =
    record {
      name = 97 ∷ [];
      listen = some (49 ∷ []);
      priority = critical;
      scheduler_poll_batch_packets = pos 0;
    }
    ∷ record {
      name = 98 ∷ [];
      listen = none;
      priority = bulk;
      scheduler_poll_batch_packets = pos 9;
    }
    ∷ record {
      name = 99 ∷ [];
      listen = some (49 ∷ []);
      priority = bulk;
      scheduler_poll_batch_packets = pos 0;
    }
    ∷ []

service_poll_order-IsServed_example :
    All
      (λ (service : RuntimeServiceConfig).
        occurrences service.name (service_poll_order services) ≡ slots_of service)
      services
service_poll_order-IsServed_example =
    service_poll_order-IsServed services ((refl, (refl, tt)), ((refl, tt), (tt, tt)))

service_poll_plan-default_example :
    service_poll_plan services (pos 32) ((98 ∷ [], pos 4) ∷ [])
    ≡ map (λ name. (name, pos 32)) (service_poll_order services)
service_poll_plan-default_example =
    service_poll_plan-default services (pos 32) ((98 ∷ [], pos 4) ∷ []) (omega arith, tt) refl

abbrev measured : ℕ → PathSchedulerMetrics ℕ
measured n = record {
  tx_capacity_bps = some (pos n);
  rx_capacity_bps = none;
  tx_latency_current_us = some (pos n);
  tx_latency_mean_us = none;
  rx_latency_current_us = none;
  rx_latency_mean_us = none;
  loss_ppm = pos n;
  tx_jitter_us = none;
  rx_jitter_us = none;
  facts = n;
}

smooth_metrics-IsSmoothed_example :
    IsSmoothed ℕ (measured 8) (measured 100) (smooth_metrics ℕ (measured 8) (measured 100))
smooth_metrics-IsSmoothed_example = smooth_metrics-IsSmoothed ℕ (measured 8) (measured 100)

smooth_again-IsNear_example :
    (smooth_again 5 (pos 2) (pos 10) ≤ℤ pos 10)
    × (pos 10 ≤ℤ smooth_again 5 (pos 2) (pos 10) +ℤ pos 3)
unfolding ◌+ℤ◌
smooth_again-IsNear_example = smooth_again-IsNear 5 (pos 2) (pos 10) (omega arith) (omega arith)

abbrev quiet_metrics : ScoredMetrics
quiet_metrics = record {
  path_name = 97 ∷ [];
  tx_capacity_bps = some (pos 5000000);
  tx_latency_current_us = none;
  tx_latency_mean_us = some (pos 120000);
  rx_latency_current_us = none;
  rx_latency_mean_us = none;
  loss_ppm = pos 20000;
  queue_depth_packets = pos 0;
  queue_depth_bytes = pos 0;
  queue_oldest_age_us = pos 0;
  send_failures = pos 1;
  receive_gaps = pos 0;
  reorder_depth_packets = pos 0;
  local_drops = pos 0;
  scheduler_in_flight_packets = pos 0;
  reorder_buffer_packets = pos 0;
  stale_control_age_us = pos 0;
}

score_path-IsScored_example : IsScored quiet_metrics (score_path (λ a b. pos 5) quiet_metrics)
score_path-IsScored_example = score_path-IsScored (λ a b. pos 5) quiet_metrics
