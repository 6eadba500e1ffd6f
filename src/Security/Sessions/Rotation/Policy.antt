-- ===== src/Security/Sessions/Rotation/Policy.antt =====
-- What `plan_session_rotation` of python/gatherlink/security/sessions.py decides.
use gatherlink.Prelude.{ℕ, ◌<◌, ◌≡◌, ◌≢◌, false, ◌||◌, Option, some, ok, arith}
use gatherlink.Prelude.Int.{ℤ, leb_ℤ, ◌+ℤ◌}
use gatherlink.Text.{Text}
use gatherlink.Security.Sessions.{
  AuthenticatedSessionPlan, needs_rekey, seconds, max_receiver_index,
}
use gatherlink.Security.Sessions.Rotation.{
  keep, rekey, SessionRotationDecision, fail_closed, disagrees_int, disagrees_text,
  replacement_index, plan_session_rotation, InRange, InRangeIfAny, replacement_index-InRange,
}

module _ (current : AuthenticatedSessionPlan) (now packets bytes_transferred : ℤ)
    (generation : Option ℤ) (peer : Option Text) (margin overlap : ℤ) (chosen : Option ℤ)
    (drawn : ℕ) where
  -- When a decision is made, it stops traffic exactly if the observed generation or peer
  -- disagrees with the session or the session has expired.
  pub plan_session_rotation-fail_closed :
      {d : SessionRotationDecision}
      → plan_session_rotation current now packets bytes_transferred generation peer margin overlap
          chosen drawn
        ≡ ok d
      → fail_closed d ≡ (
          disagrees_int generation current.topology_generation
          || disagrees_text peer current.peer_node_id
          || leb_ℤ current.expires_at now)
  unfolding plan_session_rotation
  plan_session_rotation-fail_closed {d} h = ground arith

  -- When a decision keeps the session, the session does not need a new key by time or by
  -- volume.
  pub plan_session_rotation-keeps :
      {d : SessionRotationDecision}
      → plan_session_rotation current now packets bytes_transferred generation peer margin overlap
          chosen drawn
        ≡ ok d
      → d.action ≡ keep
      → needs_rekey current now packets bytes_transferred ≡ false
  unfolding plan_session_rotation needs_rekey
  plan_session_rotation-keeps {d} h k = ground arith

  -- When the random draw and the caller's index, if any, are in range and a decision names a
  -- next index, that index differs from the current one, lies between 1 and 2^32 - 1, the
  -- action is `rekey`, and the overlap ends the given number of seconds from now.
  pub plan_session_rotation-Replaces :
      {d : SessionRotationDecision} {n : ℤ}
      → drawn < max_receiver_index
      → InRangeIfAny chosen
      → plan_session_rotation current now packets bytes_transferred generation peer margin overlap
          chosen drawn
        ≡ ok d
      → d.next_receiver_index ≡ some n
      → (n ≢ current.receiver_index)
        × InRange n
        × (d.action ≡ rekey)
        × (d.overlap_until ≡ some (now +ℤ seconds overlap))
  unfolding plan_session_rotation
  plan_session_rotation-Replaces {d} {n} l r h e =
      let (index, a, u) = parts h e in
      let (differs, range) = replacement_index-InRange chosen drawn current.receiver_index l r in
      (rw index differs, rw index range, a, u)
    where
      parts :
          plan_session_rotation current now packets bytes_transferred generation peer margin overlap
              chosen drawn
            ≡ ok d
          → d.next_receiver_index ≡ some n
          → (n ≡ replacement_index chosen drawn current.receiver_index)
            × (d.action ≡ rekey)
            × (d.overlap_until ≡ some (now +ℤ seconds overlap))
      parts h' e' = ground arith
