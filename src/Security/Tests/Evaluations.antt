-- ===== src/Security/Tests/Evaluations.antt =====
-- Runs of the evaluation of python/gatherlink/runtime/rekey.py on samples.
use gatherlink.Prelude.{
  ℕ, ◌+◌, ◌≤◌, ◌<◌, ◌≡◌, ◌≢◌, refl, Bool, true, false, ◌||◌, List, [], ◌∷◌, ◌++◌, All, Option, none,
  some, Result, ok, arith,
}
use gatherlink.Prelude.Int.{ℤ, pos, leb_ℤ, ◌+ℤ◌, ◌≤ℤ◌}
use gatherlink.Security.Sessions.Rotation.{plan_session_rotation}
use gatherlink.Security.Rekey.{
  RuntimeConfig, RuntimeSecurityConfig, ObservedStatus, RekeyRuntimeResult,
  runtime_security_from_session, evaluate_rekey_from_status, security_with, unchanged,
  success_event, rekey_event,
}
use gatherlink.Security.Rekey.Applied.{
  IsOutcome, evaluate_rekey_from_status-IsOutcome, evaluate_rekey_from_status-closed,
}
use gatherlink.Security.Rekey.Restored.{
  authenticated_session_from_runtime_config, restored,
  authenticated_session_from_runtime_config-runtime_security_from_session,
}
use gatherlink.Security.Tests.Samples.{
  sample_material, sample_plan, runtime_of, sample_status, keep_decision, expired_decision,
}

-- A runtime configuration that holds the plan with the index 5.
-- What an evaluation with a replacement of the index 6 returns, and one after the expiry.
abbrev applied_result : RekeyRuntimeResult ℕ ℕ
applied_result = record {
  decision = keep_decision;
  runtime_config = runtime_of 6;
  applied = true;
  closed = false;
  events = success_event ℕ ℕ (sample_plan 5) (sample_plan 6) keep_decision ∷ [];
}

abbrev expired_result : RekeyRuntimeResult ℕ ℕ
expired_result =
    unchanged ℕ ℕ (runtime_of 5) expired_decision true (rekey_event expired_decision ∷ [])

evaluated :
    evaluate_rekey_from_status ℕ ℕ
      (sample_plan 5)
      (runtime_of 5)
      sample_status
      (some (sample_plan 6))
      (pos 10000000)
      (pos 30)
      (pos 10)
      0
    ≡ ok applied_result
unfolding evaluate_rekey_from_status plan_session_rotation gatherlink.Prelude.Int.◌-ℤ◌
    gatherlink.Prelude.Int.◌*ℤ◌ gatherlink.Security.Rekey.apply_replacement_session
    gatherlink.Security.Rekey.replacement_validation_error runtime_security_from_session
    gatherlink.Security.Sessions.Rotation.is_datetime
evaluated = refl

evaluated_late :
    evaluate_rekey_from_status ℕ ℕ
      (sample_plan 5)
      (runtime_of 5)
      sample_status
      (some (sample_plan 6))
      (pos 120000000)
      (pos 30)
      (pos 10)
      0
    ≡ ok expired_result
unfolding evaluate_rekey_from_status plan_session_rotation
evaluated_late = refl

evaluate_rekey_from_status-IsOutcome_example :
    IsOutcome ℕ ℕ (sample_plan 5) (runtime_of 5) (some (sample_plan 6)) applied_result
evaluate_rekey_from_status-IsOutcome_example =
    evaluate_rekey_from_status-IsOutcome ℕ ℕ (sample_plan 5) (runtime_of 5) sample_status
      (some (sample_plan 6)) (pos 10000000) (pos 30) (pos 10) 0 evaluated

evaluate_rekey_from_status-closed_example : (true ≡ true) × (runtime_of 5 ≡ runtime_of 5)
evaluate_rekey_from_status-closed_example =
    evaluate_rekey_from_status-closed ℕ ℕ (sample_plan 5) (runtime_of 5) sample_status
      (some (sample_plan 6)) (pos 120000000) (pos 30) (pos 10) 0 refl evaluated_late

compiled_security :
    runtime_security_from_session ℕ ℕ (sample_plan 5)
    ≡ ok (security_with ℕ ℕ (sample_plan 5) sample_material)
unfolding runtime_security_from_session
compiled_security = refl

authenticated_session_from_runtime_config-runtime_security_from_session_example :
    authenticated_session_from_runtime_config ℕ ℕ (runtime_of 5)
    ≡ some (restored ℕ ℕ (sample_plan 5) sample_material)
authenticated_session_from_runtime_config-runtime_security_from_session_example =
    authenticated_session_from_runtime_config-runtime_security_from_session ℕ ℕ (sample_plan 5)
      sample_material (runtime_of 5) refl compiled_security
