-- ===== src/Security/Coordinator/State.antt =====
-- What `LiveRekeyCoordinator` of python/gatherlink/runtime/rekey.py keeps and returns.
use gatherlink.Prelude.{
  Bool, true, false, List, [], Option, none, some, String, if◌then◌else◌, Error, value_error,
  unicode_error, overflow_error, type_error,
}
use gatherlink.Prelude.Int.{ℤ, ltb_ℤ}
use gatherlink.Prelude.TextDicts.{TextDict}
use gatherlink.Bytes.{Bytes}
use gatherlink.Text.{Text}
use gatherlink.Security.Sessions.Rotation.{reject, should_rekey, plain_decision}
use gatherlink.Security.Rekey.{RekeyEvent, rekey_event, RekeyRuntimeResult}
use gatherlink.Security.RekeyControl.Messages.{RekeyMessageType, PendingRekeyInitiation}

-- `_pending_by_peer`
abbrev pub PendingByPeer : Type 0
PendingByPeer = TextDict PendingRekeyInitiation

-- `LiveRekeyOutboundMessage`
pub record OutboundMessage : Type 0 where
  pub peer_node_id : Text
  pub message_type : RekeyMessageType
  pub payload : Bytes

-- `pending.message.expires_at is None or pending.message.expires_at > now`
abbrev pub is_alive : PendingRekeyInitiation → ℤ → Bool
is_alive pending now = elim pending.message.expires_at [
  | none ↦ true
  | some moment ↦ ltb_ℤ now moment
]

abbrev pub is_value_error : Error → Bool
is_value_error (value_error message) = true
is_value_error unicode_error = true
is_value_error overflow_error = false
is_value_error type_error = false

-- `message.reason or "peer rejected rekey"`
abbrev pub reason_or : Option String → String
reason_or none = "peer rejected rekey"
reason_or (some String.[]) = "peer rejected rekey"
reason_or (some (String.◌∷◌ c text)) = String.◌∷◌ c text

-- A rejection that is published for a peer.
abbrev pub reject_event : String → ℤ → Text → RekeyEvent
reject_event reason index peer = record (rekey_event (plain_decision reject reason index)) {
  peer = some peer;
}

-- `LiveRekeyHandleResult`, with the diagnostics that the handler itself has published.
pub record HandleResult (Session Rest : Type 0) : Type 0 where
  pub outbound : Option OutboundMessage
  pub runtime_result : Option (RekeyRuntimeResult Session Rest)
  pub accepted : Bool
  pub reason : Option String
  pub events : List RekeyEvent

-- The index that a replacement is to have, if one is to be started.
abbrev pub index_to_start : {Session Rest : Type 0} → RekeyRuntimeResult Session Rest → Option ℤ
index_to_start evaluation =
    if should_rekey evaluation.decision then evaluation.decision.next_receiver_index else none

abbrev pub refused : {Session Rest : Type 0} → String → HandleResult Session Rest
refused reason = record {
  outbound = none;
  runtime_result = none;
  accepted = false;
  reason = some reason;
  events = [];
}
