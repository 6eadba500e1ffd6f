-- ===== src/Security/Coordinator/Retries.antt =====
-- How the `LiveRekeyCoordinator` keeps from sending a second initiation while the first one lives.
use gatherlink.Prelude.{
  ℕ, ◌≡◌, ◌∙◌, refl, true, ap, Option, none, some, Option-cases, Bool-cases, inl, inr, ok,
  Result-cases, Ensures, returns, after_step, Ensures-ok,
}
use gatherlink.Prelude.Int.{ℤ, ◌+ℤ◌, ltb_ℤ}
use gatherlink.Prelude.TextDicts.{lookup_text, remove_text, lookup_text-insert_text}
use gatherlink.Bytes.{Bytes}
use gatherlink.Security.Cipher.{Aead}
use gatherlink.Security.Identity.{
  Primitives, NodeIdentity, IdentityPublicRecord, from_identity, public_bytes, x25519_shared_secret,
}
use gatherlink.Security.Topology.{TopologyBundleBody, require_topology_member}
use gatherlink.Security.Envelope.{or_default}
use gatherlink.Security.Sessions.{AuthenticatedSessionPlan, seconds}
use gatherlink.Security.Sessions.Rotation.{generate_receiver_index}
use gatherlink.Security.Rekey.{RuntimeConfig, ObservedStatus, evaluate_rekey_from_status}
use gatherlink.Security.Noise.Messages.{
  NoiseInitiation, PendingNoiseInitiation, validate_lifetime, validate_receiver_index,
}
use gatherlink.Security.Noise.Handshake.{state_for, create_noise_ik_initiation}
use gatherlink.Security.RekeyControl.Encoding.{encode}
use gatherlink.Security.RekeyControl.Messages.{
  RekeyControlMessage, PendingRekeyInitiation, validate_current_session,
}
use gatherlink.Security.RekeyControl.Exchange.{
  create_rekey_initiation, default_noise_handshake_lifetime_seconds,
}
use gatherlink.Security.Coordinator.State.{PendingByPeer, OutboundMessage, is_alive, index_to_start}
use gatherlink.Security.Coordinator.Start.{
  start_after_evaluation, start_without_pending, maybe_start,
}

module _ (p : Primitives) (aead : Aead) (canonical : NoiseInitiation → Bytes) where
  create_noise_ik_initiation-expires :
      (a : NodeIdentity) (b : IdentityPublicRecord) (topology : TopologyBundleBody)
      (chosen : Option ℤ) (drawn : ℕ) (e : Bytes) (now lifetime : ℤ)
      → Ensures
          (λ (n : PendingNoiseInitiation). n.expires_at ≡ now +ℤ seconds lifetime)
          (create_noise_ik_initiation p aead canonical a b topology chosen drawn e now lifetime)
  unfolding create_noise_ik_initiation
  create_noise_ik_initiation-expires a b topology chosen drawn e now lifetime =
      after_step _ (validate_lifetime lifetime "handshake lifetime must be positive") _ (λ _ _.
        after_step _ (validate_receiver_index (or_default chosen (generate_receiver_index drawn))) _
          (λ _ _. after_step _ (require_topology_member topology (from_identity p a)) _ (λ _ _.
            after_step _ (require_topology_member topology b) _ (λ _ _.
              after_step _ (public_bytes p b) _ (λ (_, _, static) _.
                after_step _
                  (state_for p aead canonical topology (from_identity p a).node_id b.node_id) _
                  (λ s0 _. after_step _ (x25519_shared_secret p e static) _ (λ es _.
                    after_step _ (x25519_shared_secret p a.x25519_private static) _
                      (λ _ _. returns refl))))))))

  -- An initiation lives for 30 seconds.
  abbrev LivesUntil : ℤ → PendingRekeyInitiation → Type 0
  LivesUntil moment pending = pending.message.expires_at ≡ some moment

  abbrev pub expiry : ℤ → ℤ
  expiry now = now +ℤ seconds default_noise_handshake_lifetime_seconds

  create_rekey_initiation-expires :
      (identity : NodeIdentity) (peer : IdentityPublicRecord) (topology : TopologyBundleBody)
      (session : AuthenticatedSessionPlan) (now : ℤ) (chosen : Option ℤ) (drawn : ℕ)
      (ephemeral_private : Bytes)
      → Ensures (LivesUntil (expiry now)) (
          create_rekey_initiation p aead canonical identity peer topology session now chosen drawn
            ephemeral_private)
  unfolding create_rekey_initiation
  create_rekey_initiation-expires identity peer topology session now chosen drawn
        ephemeral_private =
      after_step _
        (validate_current_session (from_identity p identity).node_id peer.node_id topology session)
        _
        (λ _ _.
          after_step _
            (create_noise_ik_initiation p aead canonical identity peer topology chosen drawn
              ephemeral_private now default_noise_handshake_lifetime_seconds)
            _
            (λ pending made. returns (
              ap some (
                Ensures-ok _
                  (create_noise_ik_initiation-expires identity peer topology chosen drawn
                    ephemeral_private now default_noise_handshake_lifetime_seconds)
                  made))))

  module _ (json : RekeyControlMessage → Bytes) (Session Rest : Type 0)
      (identity : NodeIdentity) where
    abbrev IsWaiting : IdentityPublicRecord → ℤ → PendingByPeer → Type 0
    IsWaiting peer now pending =
        (w : PendingRekeyInitiation) × (lookup_text peer.node_id pending ≡ some w)
        × LivesUntil (expiry now) w

    start_after_evaluation-IsWaiting :
        (peer : IdentityPublicRecord) (topology : TopologyBundleBody)
        (session : AuthenticatedSessionPlan) (now : ℤ) (drawn : ℕ) (ephemeral_private : Bytes)
        (index : Option ℤ) (pending : PendingByPeer) {sent : OutboundMessage}
        → (start_after_evaluation p aead canonical json Session Rest identity peer topology session
            now drawn ephemeral_private index pending).0
          ≡ ok (some sent)
        → IsWaiting peer now
            (start_after_evaluation p aead canonical json Session Rest identity peer topology
              session now drawn ephemeral_private index pending).1
    unfolding start_after_evaluation
    start_after_evaluation-IsWaiting peer topology session now drawn ephemeral_private none pending
          sends =
        absurd (cc sends)
    start_after_evaluation-IsWaiting peer topology session now drawn ephemeral_private (some index)
          pending sends =
        elim (Result-cases (
          create_rekey_initiation p aead canonical identity peer topology session now (some index)
            drawn ephemeral_private)) [
              | inr (e, h) ↦
                  let raised = rw (start_after_evaluation, h) at sends in absurd (cc raised)
              | inl (started, h) ↦ elim (Result-cases (encode json started.message)) [
                | inr (e, h') ↦
                    let raised = rw (start_after_evaluation, h, h') at sends in absurd (cc raised)
                | inl (payload, h') ↦
                    rw (start_after_evaluation, h, h')
                      (
                        started,
                        lookup_text-insert_text peer.node_id started pending,
                        Ensures-ok _
                            (create_rekey_initiation-expires identity peer topology session now
                              (some index) drawn ephemeral_private)
                            h,
                      )
              ]
            ]

    start_without_pending-IsWaiting :
        (peer : IdentityPublicRecord) (topology : TopologyBundleBody)
        (session : AuthenticatedSessionPlan) (config : RuntimeConfig Session Rest)
        (status : ObservedStatus) (now margin overlap : ℤ) (drawn : ℕ) (ephemeral_private : Bytes)
        (pending : PendingByPeer) {sent : OutboundMessage}
        → (start_without_pending p aead canonical json Session Rest identity peer topology session
            config status now margin overlap drawn ephemeral_private pending).0
          ≡ ok (some sent)
        → IsWaiting peer now
            (start_without_pending p aead canonical json Session Rest identity peer topology session
              config status now margin overlap drawn ephemeral_private pending).1
    unfolding start_without_pending
    start_without_pending-IsWaiting peer topology session config status now margin overlap drawn
          ephemeral_private pending sends =
        elim (Result-cases (
          evaluate_rekey_from_status Session Rest session config status none now margin overlap
            drawn)) [
              | inr (e, h) ↦
                  let raised = rw (start_without_pending, h) at sends in absurd (cc raised)
              | inl (evaluation, h) ↦
                  rw (start_without_pending, h)
                    (start_after_evaluation-IsWaiting peer topology session now drawn
                      ephemeral_private (index_to_start evaluation) pending
                      (rw (start_without_pending, h) at sends))
            ]

    maybe_start-IsWaiting :
        (peer : IdentityPublicRecord) (topology : TopologyBundleBody)
        (session : AuthenticatedSessionPlan) (config : RuntimeConfig Session Rest)
        (status : ObservedStatus) (now margin overlap : ℤ) (drawn : ℕ) (ephemeral_private : Bytes)
        (pending : PendingByPeer) {sent : OutboundMessage}
        → (maybe_start p aead canonical json Session Rest identity peer topology session config
            status now margin overlap drawn ephemeral_private pending).0
          ≡ ok (some sent)
        → IsWaiting peer now
            (maybe_start p aead canonical json Session Rest identity peer topology session config
              status now margin overlap drawn ephemeral_private pending).1
    unfolding maybe_start
    maybe_start-IsWaiting peer topology session config status now margin overlap drawn
          ephemeral_private pending sends =
        elim (Option-cases (lookup_text peer.node_id pending)) [
          | inl h ↦
              rw (maybe_start, h)
                (start_without_pending-IsWaiting peer topology session config status now margin
                  overlap drawn ephemeral_private pending (rw (maybe_start, h) at sends))
          | inr (waiting, h) ↦ elim (Bool-cases (is_alive waiting now)) [
            | inl alive ↦ let silent = rw (maybe_start, h, alive) at sends in absurd (cc silent)
            | inr over ↦
                rw (maybe_start, h, over)
                  (start_without_pending-IsWaiting peer topology session config status now margin
                    overlap drawn ephemeral_private (remove_text peer.node_id pending)
                    (rw (maybe_start, h, over) at sends))
          ]
        ]

    silent_while_waiting :
        (peer : IdentityPublicRecord) (topology : TopologyBundleBody)
        (session : AuthenticatedSessionPlan) (config : RuntimeConfig Session Rest)
        (status : ObservedStatus) (begun now margin overlap : ℤ) (drawn : ℕ)
        (ephemeral_private : Bytes) (pending : PendingByPeer)
        → IsWaiting peer begun pending
        → ltb_ℤ now (expiry begun) ≡ true
        → maybe_start p aead canonical json Session Rest identity peer topology session config
            status now margin overlap drawn ephemeral_private pending
          ≡ (ok none, pending)
    unfolding maybe_start
    silent_while_waiting peer topology session config status begun now margin overlap drawn
          ephemeral_private pending (waiting, found, lives) early =
        rw (maybe_start, found, lives, early) refl

    -- When a call has started a replacement at some moment, a later call for the same peer, at
    -- any moment before the next 30 seconds are over, starts none and leaves the pending
    -- initiations as they are, whatever else it is given, as long as the entry of that peer
    -- among them is the one that the first call left.
    pub maybe_start-maybe_start :
        (peer : IdentityPublicRecord) (topology : TopologyBundleBody)
        (session : AuthenticatedSessionPlan) (config : RuntimeConfig Session Rest)
        (status : ObservedStatus) (now margin overlap : ℤ) (drawn : ℕ) (ephemeral_private : Bytes)
        (pending : PendingByPeer) {sent : OutboundMessage}
        → (maybe_start p aead canonical json Session Rest identity peer topology session config
            status now margin overlap drawn ephemeral_private pending).0
          ≡ ok (some sent)
        → (after : PendingByPeer)
        → lookup_text peer.node_id after
          ≡ lookup_text peer.node_id
              (maybe_start p aead canonical json Session Rest identity peer topology session config
                status now margin overlap drawn ephemeral_private pending).1
        → (topology' : TopologyBundleBody) (session' : AuthenticatedSessionPlan)
          (config' : RuntimeConfig Session Rest) (status' : ObservedStatus)
          (later margin' overlap' : ℤ) (drawn' : ℕ) (ephemeral_private' : Bytes)
        → ltb_ℤ later (expiry now) ≡ true
        → maybe_start p aead canonical json Session Rest identity peer topology' session' config'
            status' later margin' overlap' drawn' ephemeral_private' after
          ≡ (ok none, after)
    maybe_start-maybe_start peer topology session config status now margin overlap drawn
          ephemeral_private pending sends after kept topology' session' config' status' later
          margin' overlap' drawn' ephemeral_private' early =
        let (waiting, found, lives) =
          maybe_start-IsWaiting peer topology session config status now margin overlap drawn
            ephemeral_private pending sends in
        silent_while_waiting peer topology' session' config' status' now later margin' overlap'
          drawn' ephemeral_private' after (waiting, kept ∙ found, lives) early
