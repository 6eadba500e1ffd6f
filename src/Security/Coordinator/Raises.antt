-- ===== src/Security/Coordinator/Raises.antt =====
-- Which payloads of a peer make `LiveRekeyCoordinator.handle_peer_payload` raise, and what the pending
-- initiations are then.
use gatherlink.Prelude.{
  ℕ, ◌≡◌, refl, true, Option, none, some, Bool-cases, inl, inr, ◌⊎◌, ◌<◌, length, String, Error,
  Result, ok, err, Result-cases,
}
use gatherlink.Prelude.Int.{ℤ}
use gatherlink.Prelude.TextDicts.{lookup_text}
use gatherlink.Bytes.{Bytes}
use gatherlink.Text.{Text}
use gatherlink.Security.Cipher.{Aead}
use gatherlink.Security.Identity.{Primitives, NodeIdentity}
use gatherlink.Security.Topology.{TopologyBundleBody}
use gatherlink.Security.Sessions.{AuthenticatedSessionPlan}
use gatherlink.Security.Rekey.{RuntimeConfig, ObservedStatus}
use gatherlink.Security.Noise.Messages.{NoiseInitiation}
use gatherlink.Security.RekeyControl.Encoding.{
  max_rekey_control_payload_bytes, too_large, encode, decode, encode-raises,
}
use gatherlink.Security.RekeyControl.Messages.{
  RekeyMessageType, rekey_initiation, rekey_response, rekey_reject, RekeyControlMessage,
  PendingRekeyInitiation,
}
use gatherlink.Security.RekeyControl.Exchange.{create_rekey_reject}
use gatherlink.Security.Coordinator.State.{PendingByPeer, is_value_error}
use gatherlink.Security.Coordinator.Handle.{
  accept_runtime_rekey_initiation, complete_runtime_rekey_response, send_reject, handle_initiation,
  handle_response, handle_message, handle_peer_payload,
}

module _ (p : Primitives) (aead : Aead) (canonical : NoiseInitiation → Bytes)
    (json : RekeyControlMessage → Bytes) (parse : Bytes → Result RekeyControlMessage)
    (describe : Error → String) (Session Rest : Type 0) (identity : NodeIdentity) where
  module _ (payload : Bytes) (topology : TopologyBundleBody) (session : AuthenticatedSessionPlan)
      (config : RuntimeConfig Session Rest) (status : ObservedStatus) (now : ℤ) (drawn : ℕ) where
    -- The payload is a response to an initiation that waits, and completing it raises `e`.
    pub record IsBadResponse (pending : PendingByPeer) (e : Error) : Type 0 where
      pub message : RekeyControlMessage
      pub waiting : PendingRekeyInitiation
      pub decoded : decode parse payload ≡ ok message
      pub kind : message.message_type ≡ rekey_response
      pub found : lookup_text message.sender_node_id pending ≡ some waiting
      pub raised :
          complete_runtime_rekey_response p aead canonical json parse describe Session Rest identity
            waiting payload topology session config status now drawn
          ≡ err e

    -- The payload is an initiation that is refused, and the text of the rejection is too large.
    pub record IsUnanswerable (drawn_index : ℕ) (ephemeral_private : Bytes) (e : Error)
        : Type 0 where
      pub message : RekeyControlMessage
      pub cause : Error
      pub decoded : decode parse payload ≡ ok message
      pub kind : message.message_type ≡ rekey_initiation
      pub refused :
          accept_runtime_rekey_initiation p aead canonical json parse describe Session Rest identity
            payload topology session config status now drawn_index drawn ephemeral_private
          ≡ err cause
      pub caught : is_value_error cause ≡ true
      pub long :
          max_rekey_control_payload_bytes
          < length (
              json (
                create_rekey_reject p aead canonical identity message.sender_node_id session
                  (describe cause)
                  now))
      pub raised : e ≡ too_large

    abbrev pub IsUncaught : ℕ → Bytes → PendingByPeer → Error → Type 0
    IsUncaught drawn_index ephemeral_private pending e =
        IsBadResponse pending e ⊎ IsUnanswerable drawn_index ephemeral_private e

    -- The initiation branch catches every `ValueError` but that of its own answer.
    handle_initiation-IsUnanswerable :
        (message : RekeyControlMessage) (drawn_index : ℕ) (ephemeral_private : Bytes) {e : Error}
        → decode parse payload ≡ ok message
        → message.message_type ≡ rekey_initiation
        → handle_initiation p aead canonical json parse describe Session Rest identity payload
            message topology session config status now drawn_index drawn ephemeral_private
          ≡ err e
        → is_value_error e ≡ true
        → IsUnanswerable drawn_index ephemeral_private e
    unfolding handle_initiation send_reject
    handle_initiation-IsUnanswerable message drawn_index ephemeral_private {e} d k h v =
        elim (Result-cases (
          accept_runtime_rekey_initiation p aead canonical json parse describe Session Rest identity
            payload topology session config status now drawn_index drawn ephemeral_private)) [
              | inl (accepted, a) ↦ let h' = rw (handle_initiation, a) at h in absurd (cc h')
              | inr (first, a) ↦ elim (Bool-cases (is_value_error first)) [
                | inr other ↦
                    let h' = rw (handle_initiation, a, other) at h in absurd (cc (h', other, v))
                | inl caught ↦
                    let answer =
                      create_rekey_reject p aead canonical identity message.sender_node_id session
                        (describe first) now in
                    elim (Result-cases (encode json answer)) [
                      | inl (bytes, w) ↦
                          let h' = rw (handle_initiation, a, caught, send_reject, w) at h in
                          absurd (cc h')
                      | inr (last, w) ↦
                          let h' = rw (handle_initiation, a, caught, send_reject, w) at h in
                          let (long, same) = encode-raises json answer w in
                          record {
                            message = message;
                            cause = first;
                            decoded = d;
                            kind = k;
                            refused = a;
                            caught = caught;
                            long = long;
                            raised = cc (h', same);
                          }
                    ]
              ]
            ]

    handle_response-raises :
        (sender : Text) (found : Option PendingRekeyInitiation) (pending : PendingByPeer)
        {e : Error}
        → (handle_response p aead canonical json parse describe Session Rest identity payload sender
            topology session config status now drawn found pending).0
          ≡ err e
        → (waiting : PendingRekeyInitiation) × (found ≡ some waiting)
          × (complete_runtime_rekey_response p aead canonical json parse describe Session Rest
                identity waiting payload topology session config status now drawn
              ≡ err e)
          × ((handle_response p aead canonical json parse describe Session Rest identity payload
                sender topology session config status now drawn found pending).1
              ≡ pending)
    unfolding handle_response
    handle_response-raises sender none pending h = absurd (cc h)
    handle_response-raises sender (some waiting) pending h =
        elim (Result-cases (
          complete_runtime_rekey_response p aead canonical json parse describe Session Rest identity
            waiting payload topology session config status now drawn)) [
              | inl (result, c) ↦ let h' = rw (handle_response, c) at h in absurd (cc h')
              | inr (first, c) ↦
                  let h' = rw (handle_response, c) at h in
                  (waiting, refl, cc (c, h'), rw (handle_response, c) refl)
            ]

    handle_message-raises :
        (message : RekeyControlMessage) (kind : RekeyMessageType) (drawn_index : ℕ)
        (ephemeral_private : Bytes) (pending : PendingByPeer) {e : Error}
        → decode parse payload ≡ ok message
        → message.message_type ≡ kind
        → (handle_message p aead canonical json parse describe Session Rest identity payload message
            kind topology session config status now drawn_index drawn ephemeral_private pending).0
          ≡ err e
        → is_value_error e ≡ true
        → IsUncaught drawn_index ephemeral_private pending e
          × ((handle_message p aead canonical json parse describe Session Rest identity payload
                message kind topology session config status now drawn_index drawn ephemeral_private
                pending).1
              ≡ pending)
    unfolding handle_message
    handle_message-raises message rekey_initiation drawn_index ephemeral_private pending d k h v =
        (inr (handle_initiation-IsUnanswerable message drawn_index ephemeral_private d k h v), refl)
    handle_message-raises message rekey_response drawn_index ephemeral_private pending d k h v =
        let (waiting, found, raised, same) =
          handle_response-raises message.sender_node_id (lookup_text message.sender_node_id pending)
            pending h in
        (
          inl record {
            message = message;
            waiting = waiting;
            decoded = d;
            kind = k;
            found = found;
            raised = raised;
          },
          same,
        )
    handle_message-raises message rekey_reject drawn_index ephemeral_private pending d k h v =
        absurd (cc h)

    -- When handling a payload raises a `ValueError`, the payload is a response to an initiation
    -- that waits and completing it has raised that error, or it is an initiation that is
    -- refused for an error while the text of its rejection has more than 8192 bytes; the
    -- pending initiations are as before.
    pub handle_peer_payload-IsUncaught :
        (drawn_index : ℕ) (ephemeral_private : Bytes) (pending : PendingByPeer) {e : Error}
        → (handle_peer_payload p aead canonical json parse describe Session Rest identity payload
            topology session config status now drawn_index drawn ephemeral_private pending).0
          ≡ err e
        → is_value_error e ≡ true
        → IsUncaught drawn_index ephemeral_private pending e
          × ((handle_peer_payload p aead canonical json parse describe Session Rest identity payload
                topology session config status now drawn_index drawn ephemeral_private pending).1
              ≡ pending)
    unfolding handle_peer_payload
    handle_peer_payload-IsUncaught drawn_index ephemeral_private pending {e} h v =
        elim (Result-cases (decode parse payload)) [
          | inl (message, d) ↦
              rw (handle_peer_payload, d)
                (handle_message-raises message message.message_type drawn_index ephemeral_private
                  pending d refl (rw (handle_peer_payload, d) at h) v)
          | inr (first, d) ↦ elim (Bool-cases (is_value_error first)) [
            | inl caught ↦ let h' = rw (handle_peer_payload, d, caught) at h in absurd (cc h')
            | inr other ↦
                let h' = rw (handle_peer_payload, d, other) at h in absurd (cc (h', other, v))
          ]
        ]
