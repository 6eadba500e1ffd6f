-- ===== src/Security/Tests/Noise.antt =====
-- Runs of python/gatherlink/security/noise.py on samples.
use gatherlink.Prelude.{
  ℕ, ◌+◌, ◌≤◌, ◌≡◌, refl, [], ◌++◌, Option, none, some, Result, ok, false, arith,
}
use gatherlink.Prelude.Int.{ℤ, pos, ◌+ℤ◌, leb_ℤ}
use gatherlink.Bytes.{Bytes}
use gatherlink.Security.Identity.{NodeIdentity, IdentityPublicRecord, from_identity}
use gatherlink.Security.Sessions.{responder, initiator, AuthenticatedSessionPlan, seconds}
use gatherlink.Security.Noise.Messages.{NoiseInitiation, AcceptedNoiseHandshake}
use gatherlink.Security.Noise.Handshake.{
  create_noise_ik_initiation, accept_noise_ik_initiation, complete_noise_ik_initiator,
}
use gatherlink.Security.Noise.Run.{IsListed}
use gatherlink.Security.Noise.Agreement.{AreMirrored, noise_ik-AreMirrored}
use gatherlink.Security.Noise.Accepted.{IsFresh, accept_noise_ik_initiation-IsFresh}
use gatherlink.Security.Noise.Replied.{IsReply, complete_noise_ik_initiator-IsReply}
use gatherlink.Security.Tests.{repeat, toy_aead, toy_primitives}
use gatherlink.Security.Tests.Samples.{
  identity_of, identity_of-IsIdentity_9, identity_of-IsIdentity_10, sample_topology, sample_pending,
}

abbrev toy_canonical : NoiseInitiation → Bytes
toy_canonical message = []

created :
    create_noise_ik_initiation toy_primitives toy_aead toy_canonical
      (identity_of 9)
      (from_identity toy_primitives (identity_of 10))
      sample_topology
      (some (pos 77))
      0
      (repeat 32 21)
      (pos 1000000)
      (pos 30)
    ≡ ok sample_pending
unfolding create_noise_ik_initiation gatherlink.Security.Topology.require_topology_member
    from_identity gatherlink.Security.Identity.public_bytes gatherlink.Security.Noise.State.for_pair
    gatherlink.Security.Sessions.Derive.int_text gatherlink.Security.Identity.x25519_shared_secret
    gatherlink.Security.Noise.State.encrypt_and_hash ◌+ℤ◌ gatherlink.Prelude.Int.◌*ℤ◌
created = refl

listed : IsListed toy_primitives sample_topology (identity_of 9)
unfolding gatherlink.Security.Noise.Directory.topology_identity_by_node_id from_identity
    gatherlink.Security.Noise.Directory.topology_identity_by_x25519
    gatherlink.Security.Identity.public_bytes
listed = record { by_node_id = refl; by_x25519 = refl }

abbrev run_accept : Result AcceptedNoiseHandshake
run_accept =
    accept_noise_ik_initiation toy_primitives toy_aead toy_canonical (identity_of 10)
      sample_pending.message sample_topology (some (pos 88)) 0 (repeat 32 22) (pos 2000000)
      (pos 120)

-- The run, whose outcome the other runs go on from.
agreed :
    (accepted : AcceptedNoiseHandshake) × (plan : AuthenticatedSessionPlan) × (run_accept
      ≡ ok accepted)
    × (complete_noise_ik_initiator toy_primitives toy_aead toy_canonical
          (identity_of 9)
          sample_pending
          accepted.response
          sample_topology
          (pos 3000000)
        ≡ ok plan)
    × AreMirrored plan accepted.session
unfolding gatherlink.Security.Noise.Directory.topology_identity_by_node_id from_identity ◌+ℤ◌
    gatherlink.Prelude.Int.◌*ℤ◌ gatherlink.Security.Identity.x25519_shared_secret
agreed =
    noise_ik-AreMirrored toy_primitives toy_aead toy_canonical (identity_of 9) (identity_of 10)
      sample_topology (some (pos 77)) 0 (repeat 32 21) (pos 1000000) (pos 30) (some (pos 88)) 0
      (repeat 32 22) (pos 2000000) (pos 120) (pos 3000000) identity_of-IsIdentity_9
      identity_of-IsIdentity_10 refl refl listed refl refl refl created (omega arith) (omega arith)
      (omega arith) (omega arith) refl

noise_ik-AreMirrored_example :
    (accepted : AcceptedNoiseHandshake) × (plan : AuthenticatedSessionPlan) × (run_accept
      ≡ ok accepted)
    × (complete_noise_ik_initiator toy_primitives toy_aead toy_canonical
          (identity_of 9)
          sample_pending
          accepted.response
          sample_topology
          (pos 3000000)
        ≡ ok plan)
    × AreMirrored plan accepted.session
unfolding gatherlink.Security.Noise.Directory.topology_identity_by_node_id from_identity ◌+ℤ◌
    gatherlink.Prelude.Int.◌*ℤ◌ gatherlink.Security.Identity.x25519_shared_secret
noise_ik-AreMirrored_example =
    noise_ik-AreMirrored toy_primitives toy_aead toy_canonical (identity_of 9) (identity_of 10)
      sample_topology (some (pos 77)) 0 (repeat 32 21) (pos 1000000) (pos 30) (some (pos 88)) 0
      (repeat 32 22) (pos 2000000) (pos 120) (pos 3000000) identity_of-IsIdentity_9
      identity_of-IsIdentity_10 refl refl listed refl refl refl created (omega arith) (omega arith)
      (omega arith) (omega arith) refl

accept_noise_ik_initiation-IsFresh_example :
    IsFresh toy_primitives toy_aead toy_canonical sample_pending.message sample_topology
      (repeat 32 10)
      (pos 2000000)
    × (agreed.0.session.local_node_id ≡ repeat 32 10)
    × (agreed.0.session.peer_node_id ≡ repeat 32 9)
    × (agreed.0.session.expires_at ≡ pos 2000000 +ℤ seconds (pos 120))
    × (leb_ℤ (pos 120) (pos 0) ≡ false)
unfolding from_identity
accept_noise_ik_initiation-IsFresh_example =
    accept_noise_ik_initiation-IsFresh toy_primitives toy_aead toy_canonical (identity_of 10)
      sample_pending.message sample_topology (some (pos 88)) 0 (repeat 32 22) (pos 2000000)
      (pos 120) agreed.2

complete_noise_ik_initiator-IsReply_example :
    IsReply toy_primitives toy_aead toy_canonical agreed.0.response sample_pending sample_topology
      (repeat 32 9)
      (pos 3000000)
    × (agreed.1.local_node_id ≡ repeat 32 9)
    × (agreed.1.peer_node_id ≡ agreed.0.response.responder_node_id)
    × (agreed.1.expires_at ≡ agreed.0.response.expires_at)
unfolding from_identity
complete_noise_ik_initiator-IsReply_example =
    complete_noise_ik_initiator-IsReply toy_primitives toy_aead toy_canonical (identity_of 9)
      sample_pending agreed.0.response sample_topology (pos 3000000) agreed.3
