-- ===== src/Security/Sessions.antt =====
-- python/gatherlink/security/sessions.py: the key material and the plan of a session. A moment is the
-- number of microseconds from a fixed origin, in which `datetime` and `timedelta` are exact.
pub mod Rotation
pub mod Derive
use gatherlink.Prelude.{
  ℕ, ◌<◌, Bool, ◌||◌, Option, none, some, Result, ok, err, value_error, String,
}
use gatherlink.Prelude.Int.{ℤ, pos, leb_ℤ, ◌+ℤ◌, ◌-ℤ◌, ◌*ℤ◌}
use gatherlink.Bytes.{Bytes}
use gatherlink.Text.{Text}
use gatherlink.Security.Envelope.{or_default}

abbrev pub default_session_lifetime_seconds : ℤ
default_session_lifetime_seconds = pos 120

abbrev pub default_rekey_after_packets : ℤ
default_rekey_after_packets = pos 281474976710656

abbrev pub default_rekey_after_bytes : ℤ
default_rekey_after_bytes = pos 1125899906842624

abbrev pub default_rekey_margin_seconds : ℤ
default_rekey_margin_seconds = pos 30

abbrev pub default_rekey_overlap_seconds : ℤ
default_rekey_overlap_seconds = pos 10

abbrev pub min_receiver_index : ℕ
min_receiver_index = 1

abbrev pub max_receiver_index : ℕ
max_receiver_index = 4294967295

-- `timedelta(seconds=n)`
abbrev pub seconds : ℤ → ℤ
seconds n = n *ℤ pos 1000000

-- `Literal["initiator", "responder"]`, which Python does not enforce on a call.
pub data StaticSessionRole : Type 0 where
  initiator responder other_role : StaticSessionRole

pub record DirectionalSessionKeys : Type 0 where
  pub initiator_to_responder : Bytes
  pub responder_to_initiator : Bytes

-- After `__post_init__` both indexes are set.
pub record StaticTransportSecurityMaterial : Type 0 where
  pub receiver_index : ℤ
  pub send_key : Bytes
  pub receive_key : Bytes
  pub local_receiver_index : ℤ
  pub remote_receiver_index : ℤ

-- The constructor with `__post_init__`.
unfoldable pub new_security_material :
    ℤ → Bytes → Bytes → Option ℤ → Option ℤ → StaticTransportSecurityMaterial
new_security_material receiver_index send_key receive_key local remote = record {
  receiver_index = receiver_index;
  send_key = send_key;
  receive_key = receive_key;
  local_receiver_index = or_default local receiver_index;
  remote_receiver_index = or_default remote receiver_index;
}

pub record AuthenticatedSessionPlan : Type 0 where
  pub local_node_id : Text
  pub peer_node_id : Text
  pub topology_generation : ℤ
  pub receiver_index : ℤ
  pub role : StaticSessionRole
  pub created_at : ℤ
  pub expires_at : ℤ
  pub rekey_after_packets : ℤ
  pub rekey_after_bytes : ℤ
  pub security : Option StaticTransportSecurityMaterial

unfoldable pub needs_rekey : AuthenticatedSessionPlan → ℤ → ℤ → ℤ → Bool
needs_rekey plan now packets bytes_transferred =
    leb_ℤ plan.expires_at now
    || leb_ℤ plan.rekey_after_packets packets
    || leb_ℤ plan.rekey_after_bytes bytes_transferred
