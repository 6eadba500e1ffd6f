-- ===== src/Security/Coordinator/Start.antt =====
-- `maybe_start` of python/gatherlink/runtime/rekey.py: when a replacement is asked for.
use gatherlink.Prelude.{ℕ, Option, none, some, if◌then◌else◌, Result, ok, err}
use gatherlink.Prelude.Int.{ℤ}
use gatherlink.Prelude.TextDicts.{lookup_text, insert_text, remove_text}
use gatherlink.Bytes.{Bytes}
use gatherlink.Security.Cipher.{Aead}
use gatherlink.Security.Identity.{Primitives, NodeIdentity, IdentityPublicRecord}
use gatherlink.Security.Topology.{TopologyBundleBody}
use gatherlink.Security.Sessions.{AuthenticatedSessionPlan}
use gatherlink.Security.Rekey.{RuntimeConfig, ObservedStatus, evaluate_rekey_from_status}
use gatherlink.Security.Noise.Messages.{NoiseInitiation}
use gatherlink.Security.RekeyControl.Encoding.{encode}
use gatherlink.Security.RekeyControl.Messages.{RekeyControlMessage}
use gatherlink.Security.RekeyControl.Exchange.{create_rekey_initiation}
use gatherlink.Security.Coordinator.State.{PendingByPeer, OutboundMessage, is_alive, index_to_start}

-- `json` is the conversion of a message to JSON.
module _ (p : Primitives) (aead : Aead) (canonical : NoiseInitiation → Bytes)
    (json : RekeyControlMessage → Bytes) (Session Rest : Type 0) where
  -- The part of `maybe_start` from the evaluation on.
  unfoldable pub start_after_evaluation :
      NodeIdentity
      → IdentityPublicRecord
      → TopologyBundleBody
      → AuthenticatedSessionPlan
      → ℤ
      → ℕ
      → Bytes
      → Option ℤ
      → PendingByPeer
      → Result (Option OutboundMessage) × PendingByPeer
  start_after_evaluation identity peer topology session now drawn ephemeral_private none pending =
      (ok none, pending)
  start_after_evaluation identity peer topology session now drawn ephemeral_private (some index)
        pending =
      elim (create_rekey_initiation p aead canonical identity peer topology session now (some index)
        drawn ephemeral_private) [
          | err e ↦ (err e, pending)
          | ok started ↦ elim (encode json started.message) [
            | err e ↦ (err e, pending)
            | ok payload ↦ (
              ok (
                  some (record {
                    peer_node_id = peer.node_id;
                    message_type = started.message.message_type;
                    payload = payload;
                  })),
              insert_text peer.node_id started pending,
            )
          ]
        ]

  unfoldable pub start_without_pending :
      NodeIdentity
      → IdentityPublicRecord
      → TopologyBundleBody
      → AuthenticatedSessionPlan
      → RuntimeConfig Session Rest
      → ObservedStatus
      → ℤ
      → ℤ
      → ℤ
      → ℕ
      → Bytes
      → PendingByPeer
      → Result (Option OutboundMessage) × PendingByPeer
  unfolding start_after_evaluation
  start_without_pending identity peer topology session config status now margin overlap drawn
        ephemeral_private pending =
      elim (evaluate_rekey_from_status Session Rest session config status none now margin overlap
        drawn) [
          | err e ↦ (err e, pending)
          | ok evaluation ↦
              start_after_evaluation identity peer topology session now drawn ephemeral_private
                (index_to_start evaluation) pending
        ]

  unfoldable pub maybe_start :
      NodeIdentity
      → IdentityPublicRecord
      → TopologyBundleBody
      → AuthenticatedSessionPlan
      → RuntimeConfig Session Rest
      → ObservedStatus
      → ℤ
      → ℤ
      → ℤ
      → ℕ
      → Bytes
      → PendingByPeer
      → Result (Option OutboundMessage) × PendingByPeer
  unfolding start_without_pending
  maybe_start identity peer topology session config status now margin overlap drawn
        ephemeral_private pending =
      elim (lookup_text peer.node_id pending) [
        | none ↦
            start_without_pending identity peer topology session config status now margin overlap
              drawn ephemeral_private pending
        | some waiting ↦
            if is_alive waiting now
            then (ok none, pending)
            else start_without_pending identity peer topology session config status now margin
                overlap drawn ephemeral_private (remove_text peer.node_id pending)
      ]
