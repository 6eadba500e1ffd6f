-- ===== src/Security/Coordinator/Steps.antt =====
-- What the pending initiations of a `LiveRekeyCoordinator` are after any sequence of calls.
use gatherlink.Prelude.{
  ℕ, ◌≡◌, refl, ◌||◌, [], ◌⊎◌, Option, none, some, Bool-cases, inl, inr, String, Error, Result,
  Result-cases, sym, subst,
}
use gatherlink.Prelude.Int.{ℤ}
use gatherlink.Prelude.TextDicts.{lookup_text, remove_text}
use gatherlink.Bytes.{Bytes}
use gatherlink.Text.{Text}
use gatherlink.Security.Cipher.{Aead}
use gatherlink.Security.Identity.{Primitives, NodeIdentity, IdentityPublicRecord, from_identity}
use gatherlink.Security.Topology.{TopologyBundleBody}
use gatherlink.Security.Sessions.{AuthenticatedSessionPlan}
use gatherlink.Security.Rekey.{RuntimeConfig, ObservedStatus}
use gatherlink.Security.Noise.Messages.{NoiseInitiation}
use gatherlink.Security.RekeyControl.Encoding.{decode}
use gatherlink.Security.RekeyControl.Messages.{
  RekeyMessageType, rekey_initiation, rekey_response, rekey_reject, RekeyControlMessage,
  PendingRekeyInitiation,
}
use gatherlink.Security.Coordinator.State.{PendingByPeer}
use gatherlink.Security.Coordinator.Start.{maybe_start}
use gatherlink.Security.Coordinator.Handle.{
  complete_runtime_rekey_response, handle_response, handle_message, handle_peer_payload,
}
use gatherlink.Security.Coordinator.Pending.{
  IsWellFormed, IsWellFormed-remove_text, maybe_start-IsWellFormed,
}

module _ (p : Primitives) (aead : Aead) (canonical : NoiseInitiation → Bytes)
    (json : RekeyControlMessage → Bytes) (parse : Bytes → Result RekeyControlMessage)
    (describe : Error → String) (Session Rest : Type 0) (identity : NodeIdentity) where
  abbrev sender : Text
  sender = (from_identity p identity).node_id

  -- A call on a payload of a peer removes at most the entry of the sender of the message.
  abbrev IsReduced : PendingByPeer → PendingByPeer → Type 0
  IsReduced before after = (after ≡ before) ⊎ ((k : Text) × (after ≡ remove_text k before))

  handle_response-IsReduced :
      (payload : Bytes) (from : Text) (topology : TopologyBundleBody)
      (session : AuthenticatedSessionPlan) (config : RuntimeConfig Session Rest)
      (status : ObservedStatus) (now : ℤ) (drawn : ℕ) (found : Option PendingRekeyInitiation)
      (pending : PendingByPeer)
      → IsReduced pending
          (handle_response p aead canonical json parse describe Session Rest identity payload from
            topology session config status now drawn found pending).1
  unfolding handle_response
  handle_response-IsReduced payload from topology session config status now drawn none pending =
      inl refl
  handle_response-IsReduced payload from topology session config status now drawn (some waiting)
        pending =
      elim (Result-cases (
        complete_runtime_rekey_response p aead canonical json parse describe Session Rest identity
          waiting payload topology session config status now drawn)) [
            | inr (e, h) ↦ rw (handle_response, h) (inl refl)
            | inl (result, h) ↦
                rw (handle_response, h)
                  (elim (Bool-cases (result.applied || result.closed)) [
                    | inl done ↦ rw done (inr (from, refl))
                    | inr open_ ↦ rw open_ (inl refl)
                  ])
          ]

  handle_message-IsReduced :
      (payload : Bytes) (message : RekeyControlMessage) (kind : RekeyMessageType)
      (topology : TopologyBundleBody) (session : AuthenticatedSessionPlan)
      (config : RuntimeConfig Session Rest) (status : ObservedStatus) (now : ℤ)
      (drawn_index drawn : ℕ) (ephemeral_private : Bytes) (pending : PendingByPeer)
      → IsReduced pending
          (handle_message p aead canonical json parse describe Session Rest identity payload message
            kind topology session config status now drawn_index drawn ephemeral_private pending).1
  unfolding handle_message
  handle_message-IsReduced payload message rekey_initiation topology session config status now
        drawn_index drawn ephemeral_private pending =
      inl refl
  handle_message-IsReduced payload message rekey_response topology session config status now
        drawn_index drawn ephemeral_private pending =
      handle_response-IsReduced payload message.sender_node_id topology session config status now
        drawn (lookup_text message.sender_node_id pending) pending
  handle_message-IsReduced payload message rekey_reject topology session config status now
        drawn_index drawn ephemeral_private pending =
      inr (message.sender_node_id, refl)

  handle_peer_payload-IsReduced :
      (payload : Bytes) (topology : TopologyBundleBody) (session : AuthenticatedSessionPlan)
      (config : RuntimeConfig Session Rest) (status : ObservedStatus) (now : ℤ)
      (drawn_index drawn : ℕ) (ephemeral_private : Bytes) (pending : PendingByPeer)
      → IsReduced pending
          (handle_peer_payload p aead canonical json parse describe Session Rest identity payload
            topology session config status now drawn_index drawn ephemeral_private pending).1
  unfolding handle_peer_payload
  handle_peer_payload-IsReduced payload topology session config status now drawn_index drawn
        ephemeral_private pending =
      elim (Result-cases (decode parse payload)) [
        | inr (e, h) ↦ rw (handle_peer_payload, h) (inl refl)
        | inl (message, h) ↦
            rw (handle_peer_payload, h)
              (handle_message-IsReduced payload message message.message_type topology session config
                status now drawn_index drawn ephemeral_private pending)
      ]

  IsReduced-IsWellFormed :
      (before after : PendingByPeer)
      → IsReduced before after
      → IsWellFormed sender before
      → IsWellFormed sender after
  IsReduced-IsWellFormed before after (inl e) w = subst (IsWellFormed sender) (sym e) w
  IsReduced-IsWellFormed before after (inr (k, e)) w =
      subst (IsWellFormed sender) (sym e) (IsWellFormed-remove_text sender k before w)

  -- One call of the coordinator, with any arguments.
  pub data Step : PendingByPeer → PendingByPeer → Type 0 where
    starts :
        (peer : IdentityPublicRecord) (topology : TopologyBundleBody)
        (session : AuthenticatedSessionPlan) (config : RuntimeConfig Session Rest)
        (status : ObservedStatus) (now margin overlap : ℤ) (drawn : ℕ) (ephemeral_private : Bytes)
        (pending : PendingByPeer)
        → Step pending
            (maybe_start p aead canonical json Session Rest identity peer topology session config
              status now margin overlap drawn ephemeral_private pending).1
    handles :
        (payload : Bytes) (topology : TopologyBundleBody) (session : AuthenticatedSessionPlan)
        (config : RuntimeConfig Session Rest) (status : ObservedStatus) (now : ℤ)
        (drawn_index drawn : ℕ) (ephemeral_private : Bytes) (pending : PendingByPeer)
        → Step pending
            (handle_peer_payload p aead canonical json parse describe Session Rest identity payload
              topology session config status now drawn_index drawn ephemeral_private pending).1

  -- The pending initiations of a coordinator that was new.
  pub data Reach : PendingByPeer → Type 0 where
    created : Reach []
    called : {before after : PendingByPeer} → Reach before → Step before after → Reach after

  Step-IsWellFormed :
      {before after : PendingByPeer}
      → Step before after
      → IsWellFormed sender before
      → IsWellFormed sender after
  Step-IsWellFormed
        (starts peer topology session config status now margin overlap drawn ephemeral_private
          pending)
        w =
      maybe_start-IsWellFormed p aead canonical json Session Rest identity peer topology session
        config status now margin overlap drawn ephemeral_private pending w
  Step-IsWellFormed
        (handles payload topology session config status now drawn_index drawn ephemeral_private
          pending)
        w =
      IsReduced-IsWellFormed pending _
        (handle_peer_payload-IsReduced payload topology session config status now drawn_index drawn
          ephemeral_private pending)
        w

  -- When a coordinator was new and any calls were made of it, one after another, it has at most
  -- one pending initiation for each peer, each of them is an initiation by the node itself to
  -- that peer, and its message expires with the handshake that it holds.
  pub Reach-IsWellFormed : {pending : PendingByPeer} → Reach pending → IsWellFormed sender pending
  Reach-IsWellFormed created = (tt, tt)
  Reach-IsWellFormed (called before step) = Step-IsWellFormed step (Reach-IsWellFormed before)
