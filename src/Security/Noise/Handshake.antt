-- ===== src/Security/Noise/Handshake.antt =====
-- The three steps of a handshake in python/gatherlink/security/noise.py. The clock, the random index
-- and the ephemeral private key are arguments; `canonical` is `json_canonical_bytes`, of which nothing
-- is assumed.
use gatherlink.Prelude.{ℕ, not, ◌||◌, Option, some, length, ◌==◌, eq_list, Result, ok, ◌>>=◌, ◌>>◌}
use gatherlink.Prelude.Int.{ℤ, pos, eq_ℤ, ◌+ℤ◌}
use gatherlink.Bytes.{Bytes}
use gatherlink.Text.{Text}
use gatherlink.Security.Cipher.{Aead}
use gatherlink.Security.Identity.{
  Primitives, NodeIdentity, IdentityPublicRecord, x25519_shared_secret, from_identity, public_bytes,
}
use gatherlink.Security.Topology.{TopologyBundleBody, require_topology_member}
use gatherlink.Security.Envelope.{or_default}
use gatherlink.Security.Sessions.{
  initiator, responder, new_security_material, AuthenticatedSessionPlan, seconds,
  default_rekey_after_packets, default_rekey_after_bytes,
}
use gatherlink.Security.Sessions.Rotation.{generate_receiver_index}
use gatherlink.Security.Noise.State.{
  NoiseState, mix_hash, mix_key, encrypt_and_hash, decrypt_and_hash, for_pair,
  derive_transport_keys,
}
use gatherlink.Security.Noise.Messages.{
  noise_ik, NoiseInitiation, NoiseResponse, PendingNoiseInitiation, AcceptedNoiseHandshake, drop_if,
  validate_lifetime, validate_receiver_index, require_not_expired,
}
use gatherlink.Security.Noise.Directory.{topology_identity_by_node_id, topology_identity_by_x25519}

module _ (p : Primitives) (aead : Aead) (canonical : NoiseInitiation → Bytes) where
  unfoldable pub message_hash : NoiseInitiation → Bytes
  message_hash message = p.sha256 (canonical message)

  abbrev pub state_for : TopologyBundleBody → Text → Text → Result NoiseState
  state_for topology first second =
      for_pair p aead topology.generation topology.issuer_node_id first second

  -- `create_noise_ik_initiation`
  unfoldable pub create_noise_ik_initiation :
      NodeIdentity
      → IdentityPublicRecord
      → TopologyBundleBody
      → Option ℤ
      → ℕ
      → Bytes
      → ℤ
      → ℤ
      → Result PendingNoiseInitiation
  create_noise_ik_initiation local_identity peer_identity topology chosen drawn ephemeral_private
        now lifetime_seconds =
      do
        validate_lifetime lifetime_seconds "handshake lifetime must be positive"
        let receiver_index = or_default chosen (generate_receiver_index drawn)
        validate_receiver_index receiver_index
        let local_public = from_identity p local_identity
        require_topology_member topology local_public
        require_topology_member topology peer_identity
        (_, _, peer_static_public) ← public_bytes p peer_identity
        let ephemeral_public = p.x25519_public ephemeral_private
        s0 ← state_for topology local_public.node_id peer_identity.node_id
        let s2 = mix_hash p aead (mix_hash p aead s0 peer_static_public) ephemeral_public
        es ← x25519_shared_secret p ephemeral_private peer_static_public
        let (k, s3) = mix_key p aead s2 es
        let (encrypted_static, s4) = encrypt_and_hash p aead s3 k local_identity.x25519_public
        _ ← x25519_shared_secret p local_identity.x25519_private peer_static_public
        ok (record {
          message = record {
            schema_version = pos 1;
            protocol = noise_ik;
            topology_generation = topology.generation;
            initiator_node_id = local_public.node_id;
            responder_node_id = peer_identity.node_id;
            initiator_receiver_index = receiver_index;
            initiator_ephemeral_x25519 = p.b64encode ephemeral_public;
            encrypted_initiator_static_x25519 = p.b64encode encrypted_static;
            created_at = now;
            expires_at = now +ℤ seconds lifetime_seconds;
          };
          ephemeral_private = ephemeral_private;
          created_at = now;
          expires_at = now +ℤ seconds lifetime_seconds;
        })

  -- `_verified_noise_initiation_header`
  unfoldable pub verified_noise_initiation_header :
      NoiseInitiation → TopologyBundleBody → IdentityPublicRecord → ℤ → Result (Unit {0})
  verified_noise_initiation_header message topology responder_identity now = do
    drop_if (not (eq_list message.protocol noise_ik) || not (eq_ℤ message.schema_version (pos 1)))
    drop_if (not (eq_ℤ message.topology_generation topology.generation))
    drop_if (not (eq_list message.responder_node_id responder_identity.node_id))
    validate_receiver_index message.initiator_receiver_index
    require_not_expired message.created_at message.expires_at now
    _ ← topology_identity_by_node_id topology message.initiator_node_id
    ok tt

  -- `accept_noise_ik_initiation`
  unfoldable pub accept_noise_ik_initiation :
      NodeIdentity
      → NoiseInitiation
      → TopologyBundleBody
      → Option ℤ
      → ℕ
      → Bytes
      → ℤ
      → ℤ
      → Result AcceptedNoiseHandshake
  unfolding verified_noise_initiation_header message_hash
  accept_noise_ik_initiation responder_identity initiation topology chosen drawn ephemeral_private
        now session_lifetime_seconds =
      do
        let receiver_index = or_default chosen (generate_receiver_index drawn)
        validate_receiver_index receiver_index
        validate_lifetime session_lifetime_seconds "session lifetime must be positive"
        let responder_public = from_identity p responder_identity
        verified_noise_initiation_header initiation topology responder_public now
        initiator_ephemeral_public ← p.b64decode initiation.initiator_ephemeral_x25519
        drop_if (not (length initiator_ephemeral_public == 32))
        s0 ← state_for topology initiation.initiator_node_id responder_public.node_id
        let s2 =
            mix_hash p aead (mix_hash p aead s0 responder_identity.x25519_public)
              initiator_ephemeral_public
        es ← x25519_shared_secret p responder_identity.x25519_private initiator_ephemeral_public
        let (k, s3) = mix_key p aead s2 es
        encrypted_static ← p.b64decode initiation.encrypted_initiator_static_x25519
        (initiator_static_public, s4) ← decrypt_and_hash p aead s3 k encrypted_static
        initiator_public ← topology_identity_by_x25519 p topology initiator_static_public
        drop_if (not (eq_list initiator_public.node_id initiation.initiator_node_id))
        ss ← x25519_shared_secret p responder_identity.x25519_private initiator_static_public
        let (_, s5) = mix_key p aead s4 ss
        let ephemeral_public = p.x25519_public ephemeral_private
        let s6 = mix_hash p aead s5 ephemeral_public
        ee ← x25519_shared_secret p ephemeral_private initiator_ephemeral_public
        let (_, s7) = mix_key p aead s6 ee
        es' ← x25519_shared_secret p responder_identity.x25519_private initiator_ephemeral_public
        let (_, s8) = mix_key p aead s7 es'
        let (receive_key, send_key) = derive_transport_keys p aead s8
        ok (record {
          response = record {
            schema_version = pos 1;
            protocol = noise_ik;
            topology_generation = topology.generation;
            initiator_node_id = initiator_public.node_id;
            responder_node_id = responder_public.node_id;
            initiation_hash = p.b64encode (message_hash initiation);
            responder_ephemeral_x25519 = p.b64encode ephemeral_public;
            receiver_index = receiver_index;
            responder_receiver_index = receiver_index;
            created_at = now;
            expires_at = now +ℤ seconds session_lifetime_seconds;
          };
          session = record {
            local_node_id = responder_public.node_id;
            peer_node_id = initiator_public.node_id;
            topology_generation = topology.generation;
            receiver_index = receiver_index;
            role = responder;
            created_at = now;
            expires_at = now +ℤ seconds session_lifetime_seconds;
            rekey_after_packets = default_rekey_after_packets;
            rekey_after_bytes = default_rekey_after_bytes;
            security = some (
                new_security_material receiver_index send_key receive_key (some receiver_index)
                  (some initiation.initiator_receiver_index));
          };
        })

  -- `_verified_noise_response`
  unfoldable pub verified_noise_response :
      NoiseResponse
      → PendingNoiseInitiation
      → TopologyBundleBody
      → IdentityPublicRecord
      → ℤ
      → Result (Unit {0})
  unfolding message_hash
  verified_noise_response message pending topology initiator_identity now = do
    drop_if (not (eq_list message.protocol noise_ik) || not (eq_ℤ message.schema_version (pos 1)))
    drop_if (not (eq_ℤ message.topology_generation topology.generation))
    drop_if (not (eq_list message.initiator_node_id initiator_identity.node_id))
    drop_if (not (eq_list message.initiation_hash (p.b64encode (message_hash pending.message))))
    validate_receiver_index message.responder_receiver_index
    require_not_expired message.created_at message.expires_at now
    _ ← topology_identity_by_node_id topology message.responder_node_id
    ok tt

  -- `complete_noise_ik_initiator`
  unfoldable pub complete_noise_ik_initiator :
      NodeIdentity
      → PendingNoiseInitiation
      → NoiseResponse
      → TopologyBundleBody
      → ℤ
      → Result AuthenticatedSessionPlan
  unfolding verified_noise_response
  complete_noise_ik_initiator local_identity pending response topology now = do
    let local_public = from_identity p local_identity
    verified_noise_response response pending topology local_public now
    responder_public ← topology_identity_by_node_id topology response.responder_node_id
    initiator_ephemeral_public ← p.b64decode pending.message.initiator_ephemeral_x25519
    responder_ephemeral_public ← p.b64decode response.responder_ephemeral_x25519
    drop_if (not (length responder_ephemeral_public == 32))
    s0 ← state_for topology local_public.node_id responder_public.node_id
    (_, _, responder_static_public) ← public_bytes p responder_public
    let s2 = mix_hash p aead (mix_hash p aead s0 responder_static_public) initiator_ephemeral_public
    es ← x25519_shared_secret p pending.ephemeral_private responder_static_public
    let (k, s3) = mix_key p aead s2 es
    let (encrypted_static, s4) = encrypt_and_hash p aead s3 k local_identity.x25519_public
    sent_static ← p.b64decode pending.message.encrypted_initiator_static_x25519
    drop_if (not (eq_list encrypted_static sent_static))
    ss ← x25519_shared_secret p local_identity.x25519_private responder_static_public
    let (_, s5) = mix_key p aead s4 ss
    let s6 = mix_hash p aead s5 responder_ephemeral_public
    ee ← x25519_shared_secret p pending.ephemeral_private responder_ephemeral_public
    let (_, s7) = mix_key p aead s6 ee
    es' ← x25519_shared_secret p pending.ephemeral_private responder_static_public
    let (_, s8) = mix_key p aead s7 es'
    let (send_key, receive_key) = derive_transport_keys p aead s8
    ok (record {
      local_node_id = local_public.node_id;
      peer_node_id = responder_public.node_id;
      topology_generation = topology.generation;
      receiver_index = response.responder_receiver_index;
      role = initiator;
      created_at = now;
      expires_at = response.expires_at;
      rekey_after_packets = default_rekey_after_packets;
      rekey_after_bytes = default_rekey_after_bytes;
      security = some (
          new_security_material response.responder_receiver_index send_key receive_key
            (some pending.message.initiator_receiver_index)
            (some response.responder_receiver_index));
    })
