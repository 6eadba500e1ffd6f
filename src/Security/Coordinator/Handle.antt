-- ===== src/Security/Coordinator/Handle.antt =====
-- `handle_peer_payload` of python/gatherlink/runtime/rekey.py, and what it calls.
use gatherlink.Prelude.{
  ℕ, false, not, ◌||◌, ◌&&◌, [], ◌∷◌, Option, none, some, String, if◌then◌else◌, Error, Result, ok,
  err, ◌>>=◌,
}
use gatherlink.Prelude.Int.{ℤ}
use gatherlink.Prelude.TextDicts.{lookup_text, remove_text}
use gatherlink.Bytes.{Bytes}
use gatherlink.Text.{Text}
use gatherlink.Security.Cipher.{Aead}
use gatherlink.Security.Identity.{Primitives, NodeIdentity}
use gatherlink.Security.Topology.{TopologyBundleBody}
use gatherlink.Security.Sessions.{
  AuthenticatedSessionPlan, default_rekey_margin_seconds, default_rekey_overlap_seconds,
}
use gatherlink.Security.Rekey.{
  RuntimeConfig, ObservedStatus, RekeyRuntimeResult, evaluate_rekey_from_status,
}
use gatherlink.Security.Noise.Messages.{NoiseInitiation}
use gatherlink.Security.RekeyControl.Encoding.{encode, decode}
use gatherlink.Security.RekeyControl.Messages.{
  RekeyMessageType, rekey_initiation, rekey_response, rekey_reject, RekeyControlMessage,
  PendingRekeyInitiation,
}
use gatherlink.Security.RekeyControl.Exchange.{
  accept_rekey_initiation_payload, complete_rekey_response_payload, create_rekey_reject,
}
use gatherlink.Security.Coordinator.State.{
  PendingByPeer, HandleResult, is_value_error, reason_or, reject_event, refused,
}

-- `json` and `parse` are the conversions of messages to and from JSON, `describe` is `str` of an
-- exception.
module _ (p : Primitives) (aead : Aead) (canonical : NoiseInitiation → Bytes)
    (json : RekeyControlMessage → Bytes) (parse : Bytes → Result RekeyControlMessage)
    (describe : Error → String) (Session Rest : Type 0) where
  -- `accept_runtime_rekey_initiation`: the bytes of the response, and the evaluation.
  unfoldable pub accept_runtime_rekey_initiation :
      NodeIdentity
      → Bytes
      → TopologyBundleBody
      → AuthenticatedSessionPlan
      → RuntimeConfig Session Rest
      → ObservedStatus
      → ℤ
      → ℕ
      → ℕ
      → Bytes
      → Result (Bytes × RekeyRuntimeResult Session Rest)
  accept_runtime_rekey_initiation identity payload topology session config status now drawn_index
        drawn ephemeral_private =
      do
        accepted ←
            accept_rekey_initiation_payload p aead canonical parse identity payload topology session
              now none drawn_index ephemeral_private
        runtime_result ←
            evaluate_rekey_from_status Session Rest session config status
              (some accepted.accepted_noise.session) now default_rekey_margin_seconds
              default_rekey_overlap_seconds drawn
        response_payload ← encode json accepted.message
        ok (response_payload, runtime_result)

  -- `complete_runtime_rekey_response`
  unfoldable pub complete_runtime_rekey_response :
      NodeIdentity
      → PendingRekeyInitiation
      → Bytes
      → TopologyBundleBody
      → AuthenticatedSessionPlan
      → RuntimeConfig Session Rest
      → ObservedStatus
      → ℤ
      → ℕ
      → Result (RekeyRuntimeResult Session Rest)
  complete_runtime_rekey_response identity waiting payload topology session config status now
        drawn =
      do
        replacement ←
            complete_rekey_response_payload p aead canonical parse identity waiting payload topology
              session now
        evaluate_rekey_from_status Session Rest session config status (some replacement) now
            default_rekey_margin_seconds default_rekey_overlap_seconds drawn

  -- The `except ValueError` branch of `_handle_initiation`.
  unfoldable pub send_reject :
      NodeIdentity
      → RekeyControlMessage
      → AuthenticatedSessionPlan
      → ℤ
      → String
      → Result (HandleResult Session Rest)
  send_reject identity message session now reason = do
    let answer =
        create_rekey_reject p aead canonical identity message.sender_node_id session reason now
    payload ← encode json answer
    ok (record {
      outbound = some (record {
        peer_node_id = message.sender_node_id;
        message_type = answer.message_type;
        payload = payload;
      });
      runtime_result = none;
      accepted = false;
      reason = some reason;
      events = reject_event reason session.receiver_index message.sender_node_id ∷ [];
    })

  -- `_handle_initiation`
  unfoldable pub handle_initiation :
      NodeIdentity
      → Bytes
      → RekeyControlMessage
      → TopologyBundleBody
      → AuthenticatedSessionPlan
      → RuntimeConfig Session Rest
      → ObservedStatus
      → ℤ
      → ℕ
      → ℕ
      → Bytes
      → Result (HandleResult Session Rest)
  unfolding accept_runtime_rekey_initiation send_reject
  handle_initiation identity payload message topology session config status now drawn_index drawn
        ephemeral_private =
      elim (accept_runtime_rekey_initiation identity payload topology session config status now
        drawn_index drawn ephemeral_private) [
          | err e ↦
              if is_value_error e
              then send_reject identity message session now (describe e)
              else err e
          | ok (response_payload, runtime_result) ↦ ok (record {
            outbound = some (record {
              peer_node_id = message.sender_node_id;
              message_type = rekey_response;
              payload = response_payload;
            });
            runtime_result = some runtime_result;
            accepted = runtime_result.applied && not runtime_result.closed;
            reason = none;
            events = [];
          })
        ]

  -- The response branch of `handle_peer_payload`, for the pending initiation of the sender.
  unfoldable pub handle_response :
      NodeIdentity
      → Bytes
      → Text
      → TopologyBundleBody
      → AuthenticatedSessionPlan
      → RuntimeConfig Session Rest
      → ObservedStatus
      → ℤ
      → ℕ
      → Option PendingRekeyInitiation
      → PendingByPeer
      → Result (HandleResult Session Rest) × PendingByPeer
  unfolding complete_runtime_rekey_response
  handle_response identity payload sender topology session config status now drawn none pending =
      (ok (refused "no pending rekey initiation for response"), pending)
  handle_response identity payload sender topology session config status now drawn (some waiting)
        pending =
      elim (complete_runtime_rekey_response identity waiting payload topology session config status
        now drawn) [
          | err e ↦ (err e, pending)
          | ok result ↦ (
            ok (record {
              outbound = none;
              runtime_result = some result;
              accepted = result.applied && not result.closed;
              reason = none;
              events = [];
            }),
            if result.applied || result.closed then remove_text sender pending else pending,
          )
        ]

  -- The three types of a message; a decoded one has no other.
  unfoldable pub handle_message :
      NodeIdentity
      → Bytes
      → RekeyControlMessage
      → RekeyMessageType
      → TopologyBundleBody
      → AuthenticatedSessionPlan
      → RuntimeConfig Session Rest
      → ObservedStatus
      → ℤ
      → ℕ
      → ℕ
      → Bytes
      → PendingByPeer
      → Result (HandleResult Session Rest) × PendingByPeer
  unfolding handle_initiation handle_response
  handle_message identity payload message rekey_initiation topology session config status now
        drawn_index drawn ephemeral_private pending =
      (
        handle_initiation identity payload message topology session config status now drawn_index
            drawn ephemeral_private,
        pending,
      )
  handle_message identity payload message rekey_response topology session config status now
        drawn_index drawn ephemeral_private pending =
      handle_response identity payload message.sender_node_id topology session config status now
        drawn (lookup_text message.sender_node_id pending) pending
  handle_message identity payload message rekey_reject topology session config status now
        drawn_index drawn ephemeral_private pending =
      let reason = reason_or message.reason in
      (
        ok (record (refused reason) {
          events = reject_event reason message.current_receiver_index message.sender_node_id ∷ [];
        }),
        remove_text message.sender_node_id pending,
      )

  unfoldable pub handle_peer_payload :
      NodeIdentity
      → Bytes
      → TopologyBundleBody
      → AuthenticatedSessionPlan
      → RuntimeConfig Session Rest
      → ObservedStatus
      → ℤ
      → ℕ
      → ℕ
      → Bytes
      → PendingByPeer
      → Result (HandleResult Session Rest) × PendingByPeer
  unfolding handle_message
  handle_peer_payload identity payload topology session config status now drawn_index drawn
        ephemeral_private pending =
      elim (decode parse payload) [
        | err e ↦ (if is_value_error e then ok (refused (describe e)) else err e, pending)
        | ok message ↦
            handle_message identity payload message message.message_type topology session config
              status now drawn_index drawn ephemeral_private pending
      ]
