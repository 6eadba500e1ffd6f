-- ===== src/Security/Rekey.antt =====
-- python/gatherlink/runtime/rekey.py: one evaluation of a live rekey, and the session data that the
-- runtime configuration of python/gatherlink/config/runtime.py carries.
pub mod Applied
pub mod Restored
use gatherlink.Prelude.{
  ℕ, Bool, true, false, not, ◌||◌, List, [], ◌∷◌, Option, none, some, ◌==◌, eq_list, if◌then◌else◌,
  String, Result, ok, err, value_error, ◌>>=◌, ◌>>◌,
}
use gatherlink.Prelude.Int.{ℤ, pos, eq_ℤ}
use gatherlink.Bytes.{Bytes}
use gatherlink.Text.{Text}
use gatherlink.Security.Sessions.{
  StaticSessionRole, initiator, responder, other_role, StaticTransportSecurityMaterial,
  new_security_material, AuthenticatedSessionPlan, default_rekey_after_packets,
  default_rekey_after_bytes,
}
use gatherlink.Security.Sessions.Rotation.{
  Action, keep, rekey, reject, expired, SessionRotationDecision, fail_closed, plain_decision,
  plan_session_rotation,
}

-- `mode` and `source_mode`.
pub data ExecutionMode : Type 0 where
  no_execution static_execution : ExecutionMode

pub data SourceMode : Type 0 where
  no_source static_source authenticated_source : SourceMode

-- The element type of `sessions` is open: rekeying only asks whether there are any.
pub record RuntimeSecurityConfig (Session : Type 0) : Type 0 where
  pub mode : ExecutionMode
  pub source_mode : SourceMode
  pub receiver_index : ℤ
  pub local_receiver_index : ℤ
  pub remote_receiver_index : ℤ
  pub send_key : Option Bytes
  pub receive_key : Option Bytes
  pub local_node_id : Option Text
  pub peer_node_id : Option Text
  pub topology_generation : Option ℤ
  pub session_role : Option StaticSessionRole
  pub session_created_at : Option ℤ
  pub session_expires_at : Option ℤ
  pub rekey_after_packets : Option ℤ
  pub rekey_after_bytes : Option ℤ
  pub sessions : List Session

-- `Rest` stands for the fields other than `security`, which rekeying copies.
pub record RuntimeConfig (Session Rest : Type 0) : Type 0 where
  pub security : RuntimeSecurityConfig Session
  pub rest : Rest

abbrev pub packet_overhead : ExecutionMode → ℕ
packet_overhead static_execution = 29
packet_overhead no_execution = 0

-- `x or y` on integers, and on integers that may be None.
abbrev pub or_int : ℤ → ℤ → ℤ
or_int x y = if eq_ℤ x (pos 0) then y else x

abbrev pub or_int_if_any : Option ℤ → ℤ → ℤ
or_int_if_any none y = y
or_int_if_any (some x) y = or_int x y

-- What `_traffic_totals`, `_optional_int` and `_optional_str` read from the status mapping.
pub record ObservedStatus : Type 0 where
  pub packets : ℤ
  pub bytes_transferred : ℤ
  pub topology_generation : Option ℤ
  pub peer_node_id : Option Text

-- What `_publish_rekey_diagnostic` publishes: `peer` stays None where the call leaves it out.
pub record RekeyEvent : Type 0 where
  pub code : String
  pub message : String
  pub peer : Option Text
  pub warning : Bool
  pub decision : SessionRotationDecision

-- The code and the message of an action, for a call that gives none.
abbrev pub event_code : Action → String
event_code rekey = "rekey.started"
event_code reject = "rekey.rejected"
event_code expired = "rekey.expired"
event_code keep = "rekey.started"

abbrev pub event_message : Action → String
event_message rekey = "session rekey started"
event_message reject = "session rekey rejected"
event_message expired = "session expired before replacement completed"
event_message keep = "session rekey started"

abbrev pub rekey_event : SessionRotationDecision → RekeyEvent
rekey_event d = record {
  code = event_code d.action;
  message = event_message d.action;
  peer = none;
  warning = fail_closed d;
  decision = d;
}

-- `_replacement_validation_error`
unfoldable pub replacement_validation_error :
    AuthenticatedSessionPlan → AuthenticatedSessionPlan → Option String
replacement_validation_error current replacement =
    if elim replacement.security [ none ↦ true | some m ↦ false ]
    then some "replacement session has no compiled transport security"
    else if not (eq_list replacement.peer_node_id current.peer_node_id)
    then some "replacement peer identity disagrees with current session"
    else if not (eq_ℤ replacement.topology_generation current.topology_generation)
    then some "replacement topology generation disagrees with current session"
    else if eq_ℤ replacement.receiver_index current.receiver_index
    then some "replacement receiver index must differ from current session"
    else none

module _ (Session Rest : Type 0) where
  pub record RekeyRuntimeResult : Type 0 where
    pub decision : SessionRotationDecision
    pub runtime_config : RuntimeConfig Session Rest
    pub applied : Bool
    pub closed : Bool
    -- The diagnostics that were published, in order, if there is a bus.
    pub events : List RekeyEvent

  abbrev pub security_with :
      AuthenticatedSessionPlan → StaticTransportSecurityMaterial → RuntimeSecurityConfig Session
  security_with session m = record {
    mode = static_execution;
    source_mode = authenticated_source;
    receiver_index = or_int m.remote_receiver_index session.receiver_index;
    local_receiver_index = or_int m.local_receiver_index session.receiver_index;
    remote_receiver_index = or_int m.remote_receiver_index session.receiver_index;
    send_key = some m.send_key;
    receive_key = some m.receive_key;
    local_node_id = some session.local_node_id;
    peer_node_id = some session.peer_node_id;
    topology_generation = some session.topology_generation;
    session_role = some session.role;
    session_created_at = some session.created_at;
    session_expires_at = some session.expires_at;
    rekey_after_packets = some session.rekey_after_packets;
    rekey_after_bytes = some session.rekey_after_bytes;
    sessions = [];
  }

  -- pydantic refuses a role that is not one of the two.
  compile_security :
      AuthenticatedSessionPlan
      → StaticSessionRole
      → Option StaticTransportSecurityMaterial
      → Result (RuntimeSecurityConfig Session)
  compile_security session role none =
      err (value_error "replacement session has no compiled transport security")
  compile_security session other_role (some m) = err (value_error "validation error")
  compile_security session initiator (some m) = ok (security_with session m)
  compile_security session responder (some m) = ok (security_with session m)

  unfoldable pub runtime_security_from_session :
      AuthenticatedSessionPlan → Result (RuntimeSecurityConfig Session)
  unfolding compile_security
  runtime_security_from_session session = compile_security session session.role session.security

  -- A result that leaves the configuration as it is.
  abbrev pub unchanged :
      RuntimeConfig Session Rest
      → SessionRotationDecision
      → Bool
      → List RekeyEvent
      → RekeyRuntimeResult
  unchanged config decision closed events = record {
    decision = decision;
    runtime_config = config;
    applied = false;
    closed = closed;
    events = events;
  }

  -- What is published when a replacement is applied.
  abbrev pub success_event :
      AuthenticatedSessionPlan → AuthenticatedSessionPlan → SessionRotationDecision → RekeyEvent
  success_event current replacement decision = record {
    code = "rekey.succeeded";
    message = "session rekey succeeded";
    peer = some replacement.peer_node_id;
    warning = false;
    decision = record {
      action = rekey;
      reason = "replacement session hot-applied";
      current_receiver_index = current.receiver_index;
      next_receiver_index = some replacement.receiver_index;
      overlap_until = decision.overlap_until;
    };
  }

  -- `_apply_replacement_session` by the outcome of the validation.
  apply_validated :
      AuthenticatedSessionPlan
      → RuntimeConfig Session Rest
      → AuthenticatedSessionPlan
      → SessionRotationDecision
      → Option String
      → Result RekeyRuntimeResult
  apply_validated current config replacement decision (some reason) =
      let rejected = plain_decision reject reason current.receiver_index in
      ok (unchanged config rejected true (rekey_event rejected ∷ []))
  apply_validated current config replacement decision none = do
    security ← runtime_security_from_session replacement
    ok (record {
      decision = decision;
      runtime_config = record config { security = security };
      applied = true;
      closed = false;
      events = success_event current replacement decision ∷ [];
    })

  unfoldable pub apply_replacement_session :
      AuthenticatedSessionPlan
      → RuntimeConfig Session Rest
      → AuthenticatedSessionPlan
      → SessionRotationDecision
      → Result RekeyRuntimeResult
  unfolding apply_validated
  apply_replacement_session current config replacement decision =
      apply_validated current config replacement decision
        (replacement_validation_error current replacement)

  -- `evaluate_rekey_from_status` once the decision is made.
  unfoldable pub evaluate_decision :
      AuthenticatedSessionPlan
      → RuntimeConfig Session Rest
      → Option AuthenticatedSessionPlan
      → SessionRotationDecision
      → Result RekeyRuntimeResult
  evaluate_decision current config none decision = ok (elim decision.action [
    | keep ↦ unchanged config decision false []
    | _ ↦ unchanged config decision (fail_closed decision) (rekey_event decision ∷ [])
  ])
  evaluate_decision current config (some replacement) decision =
      if fail_closed decision
      then ok (unchanged config decision true (rekey_event decision ∷ []))
      else apply_replacement_session current config replacement decision

  -- `now` is given: the default is the wall clock. `drawn` is the random draw.
  unfoldable pub evaluate_rekey_from_status :
      AuthenticatedSessionPlan
      → RuntimeConfig Session Rest
      → ObservedStatus
      → Option AuthenticatedSessionPlan
      → ℤ
      → ℤ
      → ℤ
      → ℕ
      → Result RekeyRuntimeResult
  unfolding evaluate_decision
  evaluate_rekey_from_status current config status replacement now margin overlap drawn = do
    decision ←
        plan_session_rotation current now status.packets status.bytes_transferred
          status.topology_generation status.peer_node_id margin overlap none drawn
    evaluate_decision current config replacement decision
