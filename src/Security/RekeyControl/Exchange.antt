-- ===== src/Security/RekeyControl/Exchange.antt =====
-- `create_rekey_initiation`, `accept_rekey_initiation_payload`, `complete_rekey_response_payload` and
-- `create_rekey_reject` of python/gatherlink/security/rekey_control.py. Clock and random draws are
-- arguments.
use gatherlink.Prelude.{
  ℕ, Bool, true, false, not, ◌||◌, Option, none, some, String, eq_list, Result, ok, err,
  value_error, raise_if, ◌>>=◌, ◌>>◌,
}
use gatherlink.Prelude.Int.{ℤ, pos, eq_ℤ}
use gatherlink.Bytes.{Bytes}
use gatherlink.Text.{Text}
use gatherlink.Security.Cipher.{Aead}
use gatherlink.Security.Identity.{Primitives, NodeIdentity, IdentityPublicRecord, from_identity}
use gatherlink.Security.Topology.{TopologyBundleBody}
use gatherlink.Security.Sessions.{AuthenticatedSessionPlan, default_session_lifetime_seconds}
use gatherlink.Security.Noise.Messages.{
  noise_ik, NoiseInitiation, NoiseResponse, AcceptedNoiseHandshake, drop_if,
}
use gatherlink.Security.Noise.Handshake.{
  create_noise_ik_initiation, accept_noise_ik_initiation, complete_noise_ik_initiator,
}
use gatherlink.Security.RekeyControl.Encoding.{decode}
use gatherlink.Security.RekeyControl.Messages.{
  RekeyMessageType, rekey_initiation, rekey_response, rekey_reject, NoisePayload, initiation,
  response, RekeyControlMessage, PendingRekeyInitiation, AcceptedRekeyResponse,
  remote_receive_index, validate_current_session, validate_rekey_message, clip,
}

abbrev pub default_noise_handshake_lifetime_seconds : ℤ
default_noise_handshake_lifetime_seconds = pos 30

abbrev pub is_initiation : RekeyMessageType → Bool
is_initiation rekey_initiation = true
is_initiation rekey_response = false
is_initiation rekey_reject = false

abbrev pub is_response : RekeyMessageType → Bool
is_response rekey_initiation = false
is_response rekey_response = true
is_response rekey_reject = false

module _ (p : Primitives) (aead : Aead) (canonical : NoiseInitiation → Bytes) where
  unfoldable pub create_rekey_initiation :
      NodeIdentity
      → IdentityPublicRecord
      → TopologyBundleBody
      → AuthenticatedSessionPlan
      → ℤ
      → Option ℤ
      → ℕ
      → Bytes
      → Result PendingRekeyInitiation
  unfolding validate_current_session
  create_rekey_initiation local_identity peer_identity topology session now chosen drawn
        ephemeral_private =
      do
        let local_node_id = (from_identity p local_identity).node_id
        validate_current_session local_node_id peer_identity.node_id topology session
        pending ←
            create_noise_ik_initiation p aead canonical local_identity peer_identity topology chosen
              drawn ephemeral_private now default_noise_handshake_lifetime_seconds
        ok (record {
          pending_noise = pending;
          message = record {
            message_type = rekey_initiation;
            sender_node_id = local_node_id;
            peer_node_id = peer_identity.node_id;
            topology_generation = topology.generation;
            current_receiver_index = remote_receive_index session;
            created_at = now;
            expires_at = some pending.expires_at;
            noise = some (initiation pending.message);
            reason = none;
          };
        })

  -- A response in the place of an initiation: it has no receiver index of an initiator, so that the
  -- default of -1 is refused, after the checks that come first.
  response_as_initiation :
      NodeIdentity → NoiseResponse → TopologyBundleBody → Result AcceptedNoiseHandshake
  response_as_initiation identity message topology = do
    drop_if (not (eq_list message.protocol noise_ik) || not (eq_ℤ message.schema_version (pos 1)))
    drop_if (not (eq_ℤ message.topology_generation topology.generation))
    drop_if (not (eq_list message.responder_node_id (from_identity p identity).node_id))
    err (value_error "receiver_index must fit u32")

  -- An initiation in the place of a response has no hash of an initiation.
  initiation_as_response :
      NodeIdentity → NoiseInitiation → TopologyBundleBody → Result AuthenticatedSessionPlan
  initiation_as_response identity message topology =
      err (value_error "packet must be silently dropped")

  accept_payload :
      NodeIdentity
      → Option NoisePayload
      → TopologyBundleBody
      → Option ℤ
      → ℕ
      → Bytes
      → ℤ
      → Result AcceptedNoiseHandshake
  accept_payload identity none topology chosen drawn ephemeral_private now =
      err (value_error "rekey initiation missing Noise payload")
  accept_payload identity (some (initiation message)) topology chosen drawn ephemeral_private now =
      accept_noise_ik_initiation p aead canonical identity message topology chosen drawn
        ephemeral_private now default_session_lifetime_seconds
  accept_payload identity (some (response message)) topology chosen drawn ephemeral_private now =
      response_as_initiation identity message topology

  complete_payload :
      NodeIdentity
      → PendingRekeyInitiation
      → Option NoisePayload
      → TopologyBundleBody
      → ℤ
      → Result AuthenticatedSessionPlan
  complete_payload identity pending none topology now =
      err (value_error "rekey response missing Noise payload")
  complete_payload identity pending (some (response message)) topology now =
      complete_noise_ik_initiator p aead canonical identity pending.pending_noise message topology
        now
  complete_payload identity pending (some (initiation message)) topology now =
      initiation_as_response identity message topology

  unfoldable pub create_rekey_reject :
      NodeIdentity → Text → AuthenticatedSessionPlan → String → ℤ → RekeyControlMessage
  create_rekey_reject local_identity peer_node_id session reason now = record {
    message_type = rekey_reject;
    sender_node_id = (from_identity p local_identity).node_id;
    peer_node_id = peer_node_id;
    topology_generation = session.topology_generation;
    current_receiver_index = remote_receive_index session;
    created_at = now;
    expires_at = none;
    noise = none;
    reason = some (clip 255 reason);
  }

  module _ (parse : Bytes → Result RekeyControlMessage) where
    unfoldable pub accept_rekey_initiation_payload :
        NodeIdentity
        → Bytes
        → TopologyBundleBody
        → AuthenticatedSessionPlan
        → ℤ
        → Option ℤ
        → ℕ
        → Bytes
        → Result AcceptedRekeyResponse
    unfolding validate_rekey_message accept_payload response_as_initiation
    accept_rekey_initiation_payload identity payload topology session now chosen drawn
          ephemeral_private =
        do
          message ← decode parse payload
          raise_if (not (is_initiation message.message_type)) "expected rekey initiation"
          let node_id = (from_identity p identity).node_id
          validate_rekey_message message node_id session
          accepted ←
              accept_payload identity message.noise topology chosen drawn ephemeral_private now
          ok (record {
            accepted_noise = accepted;
            message = record {
              message_type = rekey_response;
              sender_node_id = node_id;
              peer_node_id = message.sender_node_id;
              topology_generation = topology.generation;
              current_receiver_index = remote_receive_index session;
              created_at = now;
              expires_at = some accepted.session.expires_at;
              noise = some (response accepted.response);
              reason = none;
            };
          })

    unfoldable pub complete_rekey_response_payload :
        NodeIdentity
        → PendingRekeyInitiation
        → Bytes
        → TopologyBundleBody
        → AuthenticatedSessionPlan
        → ℤ
        → Result AuthenticatedSessionPlan
    unfolding validate_rekey_message complete_payload initiation_as_response
    complete_rekey_response_payload identity pending payload topology session now = do
      message ← decode parse payload
      raise_if (not (is_response message.message_type)) "expected rekey response"
      validate_rekey_message message (from_identity p identity).node_id session
      complete_payload identity pending message.noise topology now
