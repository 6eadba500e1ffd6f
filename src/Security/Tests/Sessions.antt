-- ===== src/Security/Tests/Sessions.antt =====
-- Runs of python/gatherlink/security/sessions.py on samples.
use gatherlink.Prelude.{
  ℕ, ◌+◌, ◌≤◌, ◌<◌, ◌≡◌, ◌≢◌, refl, Bool, true, false, ◌||◌, List, [], ◌∷◌, ◌++◌, All, Option, none,
  some, Result, ok, arith,
}
use gatherlink.Prelude.Int.{ℤ, pos, leb_ℤ, ◌+ℤ◌, ◌≤ℤ◌}
use gatherlink.Security.Identity.{NodeIdentity, IdentityPublicRecord, IsIdentity, from_identity}
use gatherlink.Security.Topology.{TopologyBundleBody, ProvisionedNode, relay, node, holds_role}
use gatherlink.Security.Sessions.{
  initiator, responder, StaticTransportSecurityMaterial, seconds, needs_rekey,
}
use gatherlink.Security.Sessions.Rotation.{
  rekey, fail_closed, plan_session_rotation, InRange, disagrees_int, disagrees_text,
}
use gatherlink.Security.Sessions.Rotation.Policy.{
  plan_session_rotation-fail_closed, plan_session_rotation-keeps, plan_session_rotation-Replaces,
}
use gatherlink.Security.Sessions.Derive.{
  derive_static_transport_security, plan_authenticated_static_session,
}
use gatherlink.Security.Sessions.Derive.Mirror.{derive_static_transport_security-Mirrors}
use gatherlink.Security.Sessions.Derive.Plan.{
  IsAuthorized, plan_authenticated_static_session-IsAuthorized,
}
use gatherlink.Security.Tests.{repeat, toy_primitives}
use gatherlink.Security.Tests.Samples.{
  identity_of, identity_of-IsIdentity_9, identity_of-IsIdentity_10, public_of, sample_topology,
  sample_material, sample_plan, keep_decision, rekey_decision, expired_decision,
}

derived_initiator :
    derive_static_transport_security toy_primitives
      (identity_of 9)
      (from_identity toy_primitives (identity_of 10))
      initiator
      (pos 5)
      []
    ≡ ok sample_material
unfolding derive_static_transport_security gatherlink.Security.Identity.public_bytes from_identity
derived_initiator = refl

derive_static_transport_security-Mirrors_example :
    (theirs : StaticTransportSecurityMaterial) × (derive_static_transport_security toy_primitives
        (identity_of 10)
        (from_identity toy_primitives (identity_of 9))
        responder
        (pos 5)
        []
      ≡ ok theirs)
    × (theirs.receive_key ≡ repeat 32 2)
    × (theirs.send_key ≡ repeat 32 3)
    × (theirs.local_receiver_index ≡ pos 5)
    × (pos 5 ≡ theirs.remote_receiver_index)
derive_static_transport_security-Mirrors_example =
    derive_static_transport_security-Mirrors toy_primitives (identity_of 9) (identity_of 10) (pos 5)
      [] identity_of-IsIdentity_9 identity_of-IsIdentity_10 (λ e. absurd (cc e)) derived_initiator

planned :
    plan_authenticated_static_session toy_primitives
      (identity_of 9)
      (public_of 10)
      sample_topology
      initiator
      (pos 5)
      (pos 0)
      (pos 120)
    ≡ ok (sample_plan 5)
unfolding plan_authenticated_static_session gatherlink.Security.Topology.require_topology_member
    from_identity gatherlink.Security.Identity.public_bytes ◌+ℤ◌ gatherlink.Prelude.Int.◌*ℤ◌
planned = refl

plan_authenticated_static_session-IsAuthorized_example :
    IsAuthorized sample_topology (repeat 32 9)
    × IsAuthorized sample_topology (repeat 32 10)
    × (pos 12 ≡ pos 12)
    × (pos 120000000 ≡ pos 0 +ℤ seconds (pos 120))
    × (leb_ℤ (pos 120) (pos 0) ≡ false)
    × ((m : StaticTransportSecurityMaterial) × (some sample_material ≡ some m))
plan_authenticated_static_session-IsAuthorized_example =
    plan_authenticated_static_session-IsAuthorized toy_primitives (identity_of 9) (public_of 10)
      sample_topology initiator (pos 5) (pos 0) (pos 120) planned

rotated_early :
    plan_session_rotation
      (sample_plan 5)
      (pos 10000000)
      (pos 1)
      (pos 1)
      (some (pos 12))
      none
      (pos 30)
      (pos 10)
      none
      0
    ≡ ok keep_decision
unfolding plan_session_rotation gatherlink.Prelude.Int.◌-ℤ◌ gatherlink.Prelude.Int.◌*ℤ◌
    gatherlink.Security.Sessions.Rotation.is_datetime
rotated_early = refl

rotated_late :
    plan_session_rotation
      (sample_plan 5)
      (pos 100000000)
      (pos 1)
      (pos 1)
      none
      none
      (pos 30)
      (pos 10)
      (some (pos 5))
      0
    ≡ ok rekey_decision
unfolding plan_session_rotation gatherlink.Prelude.Int.◌-ℤ◌ gatherlink.Prelude.Int.◌*ℤ◌ ◌+ℤ◌
    gatherlink.Security.Sessions.Rotation.is_datetime
rotated_late = refl

rotated_after :
    plan_session_rotation
      (sample_plan 5)
      (pos 120000000)
      (pos 1)
      (pos 1)
      none
      none
      (pos 30)
      (pos 10)
      none
      0
    ≡ ok expired_decision
unfolding plan_session_rotation
rotated_after = refl

plan_session_rotation-fail_closed_example : fail_closed expired_decision ≡ (
    disagrees_int none (pos 12)
    || disagrees_text none (repeat 32 10)
    || leb_ℤ (pos 120000000) (pos 120000000))
plan_session_rotation-fail_closed_example =
    plan_session_rotation-fail_closed (sample_plan 5) (pos 120000000) (pos 1) (pos 1) none none
      (pos 30) (pos 10) none 0 rotated_after

plan_session_rotation-keeps_example :
    needs_rekey (sample_plan 5) (pos 10000000) (pos 1) (pos 1) ≡ false
plan_session_rotation-keeps_example =
    plan_session_rotation-keeps (sample_plan 5) (pos 10000000) (pos 1) (pos 1) (some (pos 12)) none
      (pos 30) (pos 10) none 0 rotated_early refl

plan_session_rotation-Replaces_example :
    (pos 6 ≢ pos 5)
    × InRange (pos 6)
    × (rekey ≡ rekey)
    × (some (pos 110000000) ≡ some (pos 100000000 +ℤ seconds (pos 10)))
plan_session_rotation-Replaces_example =
    plan_session_rotation-Replaces (sample_plan 5) (pos 100000000) (pos 1) (pos 1) none none
      (pos 30) (pos 10) (some (pos 5)) 0 (omega arith) (omega arith, omega arith) rotated_late refl
