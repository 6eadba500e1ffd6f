-- ===== src/Security/Tests/Samples.antt =====
-- The identities, the topology and the plan that the runs on samples share.
use gatherlink.Prelude.{ℕ, refl, [], ◌∷◌, ◌++◌, some, none}
use gatherlink.Prelude.Int.{pos}
use gatherlink.Security.Identity.{NodeIdentity, IdentityPublicRecord, IsIdentity}
use gatherlink.Security.Topology.{TopologyBundleBody, relay, node}
use gatherlink.Security.Sessions.{
  initiator, StaticTransportSecurityMaterial, AuthenticatedSessionPlan,
}
use gatherlink.Security.Sessions.Rotation.{keep, rekey, expired, SessionRotationDecision}
use gatherlink.Security.Rekey.{RuntimeConfig, ObservedStatus, security_with}
use gatherlink.Security.Noise.Messages.{noise_ik, PendingNoiseInitiation}
use gatherlink.Security.Tests.{repeat, tag, toy_primitives}

-- An identity with one byte as its node id.
abbrev pub identity_of : ℕ → NodeIdentity
identity_of b = record {
  ed25519_private = repeat 32 6;
  ed25519_public = repeat 32 7;
  x25519_private = repeat 32 8;
  x25519_public = repeat 32 4;
  node_id = repeat 32 b;
}

pub identity_of-IsIdentity_9 : IsIdentity toy_primitives (identity_of 9)
identity_of-IsIdentity_9 = record { private = refl; public = refl; ed = refl; node = refl }

pub identity_of-IsIdentity_10 : IsIdentity toy_primitives (identity_of 10)
identity_of-IsIdentity_10 = record { private = refl; public = refl; ed = refl; node = refl }

abbrev pub public_of : ℕ → IdentityPublicRecord
public_of b = record {
  schema_version = 1;
  node_id = repeat 32 b;
  ed25519_public = repeat 32 7;
  x25519_public = repeat 32 4;
}

abbrev pub sample_topology : TopologyBundleBody
sample_topology = record {
  generation = pos 12;
  issuer_node_id = 65 ∷ [];
  nodes =
      record { name = 97 ∷ []; identity = public_of 9; roles = node ∷ [] }
      ∷ record { name = 98 ∷ []; identity = public_of 10; roles = node ∷ relay ∷ [] }
      ∷ record { name = 99 ∷ []; identity = public_of 11; roles = node ∷ [] }
      ∷ [];
  revoked_node_ids = repeat 32 12 ∷ [];
}

abbrev pub sample_material : StaticTransportSecurityMaterial
sample_material = record {
  receiver_index = pos 5;
  send_key = repeat 32 2;
  receive_key = repeat 32 3;
  local_receiver_index = pos 5;
  remote_receiver_index = pos 5;
}

-- A plan that begins at 0 and expires after 120 seconds.
abbrev pub sample_plan : ℕ → AuthenticatedSessionPlan
sample_plan index = record {
  local_node_id = repeat 32 9;
  peer_node_id = repeat 32 10;
  topology_generation = pos 12;
  receiver_index = pos index;
  role = initiator;
  created_at = pos 0;
  expires_at = pos 120000000;
  rekey_after_packets = pos 281474976710656;
  rekey_after_bytes = pos 1125899906842624;
  security = some sample_material;
}

-- The node 9 asks the node 10 at second 1, for 30 seconds.
abbrev pub sample_pending : PendingNoiseInitiation
sample_pending = record {
  message = record {
    schema_version = pos 1;
    protocol = noise_ik;
    topology_generation = pos 12;
    initiator_node_id = repeat 32 9;
    responder_node_id = repeat 32 10;
    initiator_receiver_index = pos 77;
    initiator_ephemeral_x25519 = repeat 32 4;
    encrypted_initiator_static_x25519 = repeat 32 4 ++ tag;
    created_at = pos 1000000;
    expires_at = pos 31000000;
  };
  ephemeral_private = repeat 32 21;
  created_at = pos 1000000;
  expires_at = pos 31000000;
}

abbrev pub runtime_of : ℕ → RuntimeConfig ℕ ℕ
runtime_of index = record {
  security = security_with ℕ ℕ (sample_plan index) sample_material;
  rest = 4;
}

abbrev pub sample_status : ObservedStatus
sample_status = record {
  packets = pos 1;
  bytes_transferred = pos 1;
  topology_generation = some (pos 12);
  peer_node_id = none;
}

-- Early in the session, late in it with the old index chosen again, and after it.
abbrev pub keep_decision : SessionRotationDecision
keep_decision = record {
  action = keep;
  reason = "session remains within time and volume limits";
  current_receiver_index = pos 5;
  next_receiver_index = none;
  overlap_until = none;
}

abbrev pub rekey_decision : SessionRotationDecision
rekey_decision = record {
  action = rekey;
  reason = "session is within rekey margin";
  current_receiver_index = pos 5;
  next_receiver_index = some (pos 6);
  overlap_until = some (pos 110000000);
}

abbrev pub expired_decision : SessionRotationDecision
expired_decision = record {
  action = expired;
  reason = "session expired before replacement completed";
  current_receiver_index = pos 5;
  next_receiver_index = none;
  overlap_until = none;
}
