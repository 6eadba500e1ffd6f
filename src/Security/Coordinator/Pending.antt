-- ===== src/Security/Coordinator/Pending.antt =====
-- What `maybe_start` of python/gatherlink/runtime/rekey.py makes of the pending initiations.
use gatherlink.Prelude.{
  ℕ, ◌≡◌, refl, All, Option, none, some, Option-cases, Bool-cases, inl, inr, Result-cases, Ensures,
  returns, after_step, Ensures-ok,
}
use gatherlink.Prelude.Int.{ℤ}
use gatherlink.Prelude.TextDicts.{
  lookup_text, remove_text, HasDistinctTexts, All-insert_text, All-remove_text,
  HasDistinctTexts-insert_text, HasDistinctTexts-remove_text,
}
use gatherlink.Bytes.{Bytes}
use gatherlink.Text.{Text}
use gatherlink.Security.Cipher.{Aead}
use gatherlink.Security.Identity.{Primitives, NodeIdentity, IdentityPublicRecord, from_identity}
use gatherlink.Security.Topology.{TopologyBundleBody}
use gatherlink.Security.Sessions.{AuthenticatedSessionPlan}
use gatherlink.Security.Rekey.{RuntimeConfig, ObservedStatus, evaluate_rekey_from_status}
use gatherlink.Security.Noise.Messages.{NoiseInitiation}
use gatherlink.Security.RekeyControl.Encoding.{encode}
use gatherlink.Security.RekeyControl.Messages.{
  rekey_initiation, initiation, RekeyControlMessage, PendingRekeyInitiation,
  validate_current_session,
}
use gatherlink.Security.Noise.Handshake.{create_noise_ik_initiation}
use gatherlink.Security.RekeyControl.Exchange.{
  create_rekey_initiation, default_noise_handshake_lifetime_seconds,
}
use gatherlink.Security.Coordinator.State.{PendingByPeer, is_alive, index_to_start}
use gatherlink.Security.Coordinator.Start.{
  start_after_evaluation, start_without_pending, maybe_start,
}

-- An initiation that the node itself has made for a peer.
pub record IsOwn (sender peer : Text) (pending : PendingRekeyInitiation) : Type 0 where
  pub kind : pending.message.message_type ≡ rekey_initiation
  pub from : pending.message.sender_node_id ≡ sender
  pub to : pending.message.peer_node_id ≡ peer
  pub noise : pending.message.noise ≡ some (initiation pending.pending_noise.message)
  pub lifetime : pending.message.expires_at ≡ some pending.pending_noise.expires_at

-- There is one entry for each peer, and it is the node's own.
abbrev pub IsWellFormed : Text → PendingByPeer → Type 0
IsWellFormed sender pending =
    HasDistinctTexts pending
    × All (λ (e : Text × PendingRekeyInitiation). IsOwn sender e.0 e.1) pending

pub IsWellFormed-remove_text :
    (sender k : Text) (pending : PendingByPeer)
    → IsWellFormed sender pending
    → IsWellFormed sender (remove_text k pending)
IsWellFormed-remove_text sender k pending (d, a) = (
  HasDistinctTexts-remove_text k pending d,
  All-remove_text (λ e. IsOwn sender e.0 e.1) k pending a,
)

module _ (p : Primitives) (aead : Aead) (canonical : NoiseInitiation → Bytes) where
  create_rekey_initiation-IsOwn :
      (identity : NodeIdentity) (peer : IdentityPublicRecord) (topology : TopologyBundleBody)
      (session : AuthenticatedSessionPlan) (now : ℤ) (chosen : Option ℤ) (drawn : ℕ)
      (ephemeral_private : Bytes)
      → Ensures (IsOwn (from_identity p identity).node_id peer.node_id) (
          create_rekey_initiation p aead canonical identity peer topology session now chosen drawn
            ephemeral_private)
  unfolding create_rekey_initiation
  create_rekey_initiation-IsOwn identity peer topology session now chosen drawn ephemeral_private =
      after_step _
        (validate_current_session (from_identity p identity).node_id peer.node_id topology session)
        _
        (λ _ _.
          after_step _
            (create_noise_ik_initiation p aead canonical identity peer topology chosen drawn
              ephemeral_private now default_noise_handshake_lifetime_seconds)
            _
            (λ pending _.
              returns
                (record { kind = refl; from = refl; to = refl; noise = refl; lifetime = refl })))

  module _ (json : RekeyControlMessage → Bytes) (Session Rest : Type 0)
      (identity : NodeIdentity) where
    abbrev sender : Text
    sender = (from_identity p identity).node_id

    start_after_evaluation-IsWellFormed :
        (peer : IdentityPublicRecord) (topology : TopologyBundleBody)
        (session : AuthenticatedSessionPlan) (now : ℤ) (drawn : ℕ) (ephemeral_private : Bytes)
        (index : Option ℤ) (pending : PendingByPeer)
        → IsWellFormed sender pending
        → IsWellFormed sender
            (start_after_evaluation p aead canonical json Session Rest identity peer topology
              session now drawn ephemeral_private index pending).1
    unfolding start_after_evaluation
    start_after_evaluation-IsWellFormed peer topology session now drawn ephemeral_private none
          pending w =
        w
    start_after_evaluation-IsWellFormed peer topology session now drawn ephemeral_private
          (some index) pending w =
        elim (Result-cases (
          create_rekey_initiation p aead canonical identity peer topology session now (some index)
            drawn ephemeral_private)) [
              | inr (e, h) ↦ rw (start_after_evaluation, h) w
              | inl (started, h) ↦
                  rw (start_after_evaluation, h)
                    (elim (Result-cases (encode json started.message)) [
                      | inr (e, h') ↦ rw (start_after_evaluation, h') w
                      | inl (payload, h') ↦
                          rw (start_after_evaluation, h')
                            (
                              HasDistinctTexts-insert_text peer.node_id started pending w.0,
                              All-insert_text (λ e. IsOwn sender e.0 e.1) peer.node_id started
                                  pending
                                  (Ensures-ok _
                                    (create_rekey_initiation-IsOwn identity peer topology session
                                      now (some index) drawn ephemeral_private)
                                    h)
                                  w.1,
                            )
                    ])
            ]

    start_without_pending-IsWellFormed :
        (peer : IdentityPublicRecord) (topology : TopologyBundleBody)
        (session : AuthenticatedSessionPlan) (config : RuntimeConfig Session Rest)
        (status : ObservedStatus) (now margin overlap : ℤ) (drawn : ℕ) (ephemeral_private : Bytes)
        (pending : PendingByPeer)
        → IsWellFormed sender pending
        → IsWellFormed sender
            (start_without_pending p aead canonical json Session Rest identity peer topology session
              config status now margin overlap drawn ephemeral_private pending).1
    unfolding start_without_pending
    start_without_pending-IsWellFormed peer topology session config status now margin overlap drawn
          ephemeral_private pending w =
        elim (Result-cases (
          evaluate_rekey_from_status Session Rest session config status none now margin overlap
            drawn)) [
              | inr (e, h) ↦ rw (start_without_pending, h) w
              | inl (evaluation, h) ↦
                  rw (start_without_pending, h)
                    (start_after_evaluation-IsWellFormed peer topology session now drawn
                      ephemeral_private (index_to_start evaluation) pending w)
            ]

    pub maybe_start-IsWellFormed :
        (peer : IdentityPublicRecord) (topology : TopologyBundleBody)
        (session : AuthenticatedSessionPlan) (config : RuntimeConfig Session Rest)
        (status : ObservedStatus) (now margin overlap : ℤ) (drawn : ℕ) (ephemeral_private : Bytes)
        (pending : PendingByPeer)
        → IsWellFormed sender pending
        → IsWellFormed sender
            (maybe_start p aead canonical json Session Rest identity peer topology session config
              status now margin overlap drawn ephemeral_private pending).1
    unfolding maybe_start
    maybe_start-IsWellFormed peer topology session config status now margin overlap drawn
          ephemeral_private pending w =
        elim (Option-cases (lookup_text peer.node_id pending)) [
          | inl h ↦
              rw (maybe_start, h)
                (start_without_pending-IsWellFormed peer topology session config status now margin
                  overlap drawn ephemeral_private pending w)
          | inr (waiting, h) ↦
              rw (maybe_start, h)
                (elim (Bool-cases (is_alive waiting now)) [
                  | inl alive ↦ rw alive w
                  | inr over ↦ rw over (
                      start_without_pending-IsWellFormed peer topology session config status now
                        margin overlap drawn ephemeral_private (remove_text peer.node_id pending)
                        (IsWellFormed-remove_text sender peer.node_id pending w))
                ])
        ]
