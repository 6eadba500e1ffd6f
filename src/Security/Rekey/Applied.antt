-- ===== src/Security/Rekey/Applied.antt =====
-- When the evaluation of python/gatherlink/runtime/rekey.py changes the runtime configuration.
use gatherlink.Prelude.{
  ℕ, ◌≡◌, ◌≢◌, refl, true, false, ◌||◌, Option, none, some, eq_list, eq_list→eq, String, ok,
  >>=-eq-ok, arith, Bool-cases, inl, inr,
}
use gatherlink.Prelude.Int.{ℤ, eq_ℤ, eq_ℤ_iff, leb_ℤ}
use gatherlink.Security.Sessions.{AuthenticatedSessionPlan}
use gatherlink.Security.Sessions.Rotation.{
  SessionRotationDecision, fail_closed, plan_session_rotation, disagrees_int, disagrees_text,
}
use gatherlink.Security.Sessions.Rotation.Policy.{plan_session_rotation-fail_closed}
use gatherlink.Security.Rekey.{
  RuntimeConfig, ObservedStatus, RekeyRuntimeResult, replacement_validation_error,
  runtime_security_from_session, apply_validated, apply_replacement_session, evaluate_decision,
  evaluate_rekey_from_status,
}

-- What a replacement must meet.
pub record IsReplacement (current replacement : AuthenticatedSessionPlan) : Type 0 where
  pub peer : replacement.peer_node_id ≡ current.peer_node_id
  pub generation : replacement.topology_generation ≡ current.topology_generation
  pub index : replacement.receiver_index ≢ current.receiver_index

replacement_validation_error-none :
    (current replacement : AuthenticatedSessionPlan)
    → replacement_validation_error current replacement ≡ none
    → (eq_list replacement.peer_node_id current.peer_node_id ≡ true)
      × (eq_ℤ replacement.topology_generation current.topology_generation ≡ true)
      × (eq_ℤ replacement.receiver_index current.receiver_index ≡ false)
unfolding replacement_validation_error
replacement_validation_error-none current replacement h = ground arith

replacement_validation_error-IsReplacement :
    (current replacement : AuthenticatedSessionPlan)
    → replacement_validation_error current replacement ≡ none
    → IsReplacement current replacement
replacement_validation_error-IsReplacement current replacement h =
    let (p, g, i) = replacement_validation_error-none current replacement h in
    record {
      peer = eq_list→eq replacement.peer_node_id current.peer_node_id p;
      generation = (eq_ℤ_iff replacement.topology_generation current.topology_generation).0 g;
      index =
          λ e. absurd (cc ((eq_ℤ_iff replacement.receiver_index current.receiver_index).1 e, i));
    }

module _ (Session Rest : Type 0) where
  -- Either nothing was applied and the configuration is the old one, or a replacement was, and then
  -- traffic goes on, the configuration has the security of the replacement, and the rest is the old.
  abbrev pub IsOutcome :
      AuthenticatedSessionPlan
      → RuntimeConfig Session Rest
      → Option AuthenticatedSessionPlan
      → RekeyRuntimeResult Session Rest
      → Type 0
  IsOutcome current config replacement out = elim out.applied [
    | false ↦ out.runtime_config ≡ config
    | true ↦
        (r : AuthenticatedSessionPlan) × (replacement ≡ some r)
        × IsReplacement current r
        × (runtime_security_from_session Session Rest r ≡ ok out.runtime_config.security)
        × (out.runtime_config.rest ≡ config.rest)
        × (out.closed ≡ false)
  ]

  apply_replacement_session-IsOutcome :
      (current : AuthenticatedSessionPlan) (config : RuntimeConfig Session Rest)
      (r : AuthenticatedSessionPlan) (decision : SessionRotationDecision)
      {out : RekeyRuntimeResult Session Rest}
      → apply_replacement_session Session Rest current config r decision ≡ ok out
      → IsOutcome current config (some r) out
  unfolding apply_replacement_session apply_validated
  apply_replacement_session-IsOutcome current config r decision {out} h =
      validated (replacement_validation_error current r)
        (replacement_validation_error-IsReplacement current r) h
    where
      validated :
          (v : Option String)
          → (v ≡ none → IsReplacement current r)
          → apply_validated Session Rest current config r decision v ≡ ok out
          → IsOutcome current config (some r) out
      validated (some reason) valid h' =
          let a : out.applied ≡ false = cc h' in
          let c : out.runtime_config ≡ config = cc h' in rw a c
      validated none valid h' =
          let (security, e, made) = >>=-eq-ok (runtime_security_from_session Session Rest r) _ h' in
          let a : out.applied ≡ true = cc made in
          let s : out.runtime_config.security ≡ security = cc made in
          rw a (r, refl, valid refl, rw s e, cc made, cc made)

  -- When an evaluation returns a result, either nothing was applied and the configuration is
  -- the old one, or a replacement was offered for the same peer and generation with another
  -- receiver index, the new configuration has exactly its compiled security, the rest is the
  -- old, and traffic goes on.
  pub evaluate_rekey_from_status-IsOutcome :
      (current : AuthenticatedSessionPlan) (config : RuntimeConfig Session Rest)
      (status : ObservedStatus) (replacement : Option AuthenticatedSessionPlan)
      (now margin overlap : ℤ) (drawn : ℕ) {out : RekeyRuntimeResult Session Rest}
      → evaluate_rekey_from_status Session Rest current config status replacement now margin overlap
          drawn
        ≡ ok out
      → IsOutcome current config replacement out
  unfolding evaluate_rekey_from_status evaluate_decision
  evaluate_rekey_from_status-IsOutcome current config status replacement now margin overlap drawn
        {out} h =
      let (d, e, made) =
        >>=-eq-ok
          (plan_session_rotation current now status.packets status.bytes_transferred
            status.topology_generation status.peer_node_id margin overlap none drawn)
          _ h in
      decided replacement d made
    where
      decided :
          (r : Option AuthenticatedSessionPlan) (d : SessionRotationDecision)
          → evaluate_decision Session Rest current config r d ≡ ok out
          → IsOutcome current config r out
      decided none d h' =
          let a : out.applied ≡ false = ground arith in
          let c : out.runtime_config ≡ config = ground arith in rw a c
      decided (some r) d h' = elim (Bool-cases (fail_closed d)) [
        | inl closed ↦
            let h'' = rw closed at h' in
            let a : out.applied ≡ false = cc h'' in
            let c : out.runtime_config ≡ config = cc h'' in rw a c
        | inr open_ ↦ apply_replacement_session-IsOutcome current config r d (rw open_ at h')
      ]

  -- When the observed generation or peer disagrees with the session, or the session has
  -- expired, and an evaluation returns a result, traffic is stopped and the configuration is
  -- the old one, whatever replacement is offered.
  pub evaluate_rekey_from_status-closed :
      (current : AuthenticatedSessionPlan) (config : RuntimeConfig Session Rest)
      (status : ObservedStatus) (replacement : Option AuthenticatedSessionPlan)
      (now margin overlap : ℤ) (drawn : ℕ) {out : RekeyRuntimeResult Session Rest}
      → (disagrees_int status.topology_generation current.topology_generation
          || disagrees_text status.peer_node_id current.peer_node_id
          || leb_ℤ current.expires_at now)
        ≡ true
      → evaluate_rekey_from_status Session Rest current config status replacement now margin overlap
          drawn
        ≡ ok out
      → (out.closed ≡ true) × (out.runtime_config ≡ config)
  unfolding evaluate_rekey_from_status evaluate_decision
  evaluate_rekey_from_status-closed current config status replacement now margin overlap drawn {out}
        bad h =
      let (d, e, made) =
        >>=-eq-ok
          (plan_session_rotation current now status.packets status.bytes_transferred
            status.topology_generation status.peer_node_id margin overlap none drawn)
          _ h in
      let same =
        plan_session_rotation-fail_closed current now status.packets status.bytes_transferred
          status.topology_generation status.peer_node_id margin overlap none drawn e in
      stopped replacement d (cc (same, bad)) made
    where
      stopped :
          (r : Option AuthenticatedSessionPlan) (d : SessionRotationDecision)
          → fail_closed d ≡ true
          → evaluate_decision Session Rest current config r d ≡ ok out
          → (out.closed ≡ true) × (out.runtime_config ≡ config)
      stopped none d f h' = ground arith
      stopped (some r) d f h' = let h'' = rw f at h' in (cc h'', cc h'')
