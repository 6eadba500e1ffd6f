-- ===== src/Security/Noise/Messages.antt =====
-- The messages of python/gatherlink/security/noise.py, and the checks of single fields.
use gatherlink.Prelude.{Bool, ◌||◌, [], ◌∷◌, String, Result, raise_if}
use gatherlink.Prelude.Int.{ℤ, pos, ltb_ℤ, leb_ℤ}
use gatherlink.Bytes.{Bytes}
use gatherlink.Text.{Text}
use gatherlink.Security.Sessions.{AuthenticatedSessionPlan}

-- "noise-ik"
abbrev pub noise_ik : Text
noise_ik = 110 ∷ 111 ∷ 105 ∷ 115 ∷ 101 ∷ 45 ∷ 105 ∷ 107 ∷ []

pub record NoiseInitiation : Type 0 where
  pub schema_version : ℤ
  pub protocol : Text
  pub topology_generation : ℤ
  pub initiator_node_id : Text
  pub responder_node_id : Text
  pub initiator_receiver_index : ℤ
  pub initiator_ephemeral_x25519 : Text
  pub encrypted_initiator_static_x25519 : Text
  pub created_at : ℤ
  pub expires_at : ℤ

pub record NoiseResponse : Type 0 where
  pub schema_version : ℤ
  pub protocol : Text
  pub topology_generation : ℤ
  pub initiator_node_id : Text
  pub responder_node_id : Text
  pub initiation_hash : Text
  pub responder_ephemeral_x25519 : Text
  pub receiver_index : ℤ
  pub responder_receiver_index : ℤ
  pub created_at : ℤ
  pub expires_at : ℤ

pub record PendingNoiseInitiation : Type 0 where
  pub message : NoiseInitiation
  pub ephemeral_private : Bytes
  pub created_at : ℤ
  pub expires_at : ℤ

pub record AcceptedNoiseHandshake : Type 0 where
  pub response : NoiseResponse
  pub session : AuthenticatedSessionPlan

-- `raise ValueError("packet must be silently dropped")` under a test.
abbrev pub drop_if : Bool → Result (Unit {0})
drop_if test = raise_if test "packet must be silently dropped"

-- `_validate_lifetime`; the message starts with the name of the lifetime.
abbrev pub validate_lifetime : ℤ → String → Result (Unit {0})
validate_lifetime lifetime_seconds message = raise_if (leb_ℤ lifetime_seconds (pos 0)) message

-- `_validate_receiver_index`
abbrev pub validate_receiver_index : ℤ → Result (Unit {0})
validate_receiver_index receiver_index =
    raise_if (ltb_ℤ receiver_index (pos 0) || leb_ℤ (pos 4294967296) receiver_index)
      "receiver_index must fit u32"

-- `_require_not_expired`
abbrev pub require_not_expired : ℤ → ℤ → ℤ → Result (Unit {0})
require_not_expired created_at expires_at now =
    drop_if (ltb_ℤ now created_at || ltb_ℤ expires_at now)
