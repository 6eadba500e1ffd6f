-- ===== src/Security/RekeyControl/Messages.antt =====
-- The data of python/gatherlink/security/rekey_control.py, and its checks against the current session.
use gatherlink.Prelude.{
  ℕ, zero, suc, not, Option, none, some, String, eq_list, Result, raise_if, ◌>>◌,
}
use gatherlink.Prelude.Int.{ℤ, eq_ℤ}
use gatherlink.Text.{Text}
use gatherlink.Security.Topology.{TopologyBundleBody}
use gatherlink.Security.Sessions.{AuthenticatedSessionPlan}
use gatherlink.Security.Rekey.{or_int}
use gatherlink.Security.Noise.Messages.{
  NoiseInitiation, NoiseResponse, PendingNoiseInitiation, AcceptedNoiseHandshake,
}

pub data RekeyMessageType : Type 0 where
  rekey_initiation rekey_response rekey_reject : RekeyMessageType

-- The mapping in `noise`, by the handshake message that it holds.
pub data NoisePayload : Type 0 where
  initiation : NoiseInitiation → NoisePayload
  response : NoiseResponse → NoisePayload

pub record RekeyControlMessage : Type 0 where
  pub message_type : RekeyMessageType
  pub sender_node_id : Text
  pub peer_node_id : Text
  pub topology_generation : ℤ
  pub current_receiver_index : ℤ
  pub created_at : ℤ
  pub expires_at : Option ℤ
  pub noise : Option NoisePayload
  pub reason : Option String

pub record PendingRekeyInitiation : Type 0 where
  pub pending_noise : PendingNoiseInitiation
  pub message : RekeyControlMessage

pub record AcceptedRekeyResponse : Type 0 where
  pub accepted_noise : AcceptedNoiseHandshake
  pub message : RekeyControlMessage

-- `_local_receive_index` and `_remote_receive_index`
abbrev pub local_receive_index : AuthenticatedSessionPlan → ℤ
local_receive_index session = elim session.security [
  | none ↦ session.receiver_index
  | some m ↦ or_int m.local_receiver_index session.receiver_index
]

abbrev pub remote_receive_index : AuthenticatedSessionPlan → ℤ
remote_receive_index session = elim session.security [
  | none ↦ session.receiver_index
  | some m ↦ or_int m.remote_receiver_index session.receiver_index
]

-- `_validate_current_session`, for the node ids of the local identity and of the peer.
unfoldable pub validate_current_session :
    Text → Text → TopologyBundleBody → AuthenticatedSessionPlan → Result (Unit {0})
validate_current_session local_node_id peer_node_id topology session = do
  raise_if (not (eq_list session.local_node_id local_node_id))
      "current session local identity disagrees with rekey identity"
  raise_if (not (eq_list session.peer_node_id peer_node_id))
      "current session peer identity disagrees with rekey peer"
  raise_if (not (eq_ℤ session.topology_generation topology.generation))
      "current session topology generation disagrees with topology"

-- `_validate_rekey_message_for_current_session`
unfoldable pub validate_rekey_message :
    RekeyControlMessage → Text → AuthenticatedSessionPlan → Result (Unit {0})
validate_rekey_message message local_node_id session = do
  raise_if (not (eq_list message.peer_node_id local_node_id))
      "rekey message is not addressed to this node"
  raise_if (not (eq_list message.sender_node_id session.peer_node_id))
      "rekey message sender disagrees with current peer"
  raise_if (not (eq_ℤ message.topology_generation session.topology_generation))
      "rekey message topology generation is stale"
  raise_if (not (eq_ℤ message.current_receiver_index (local_receive_index session)))
      "rekey message current receiver index is stale"

-- `reason[:n]`
abbrev pub clip : ℕ → String → String
clip zero text = String.[]
clip (suc n) String.[] = String.[]
clip (suc n) (String.◌∷◌ c text) = String.◌∷◌ c (clip n text)
