-- ===== src/Security/Noise/Ends.antt =====
-- What two honest nodes make of the messages of a handshake of python/gatherlink/security/noise.py.
use gatherlink.Prelude.{
  ℕ, ◌≡◌, refl, ◌∙◌, true, false, ◌||◌, Option, some, length, eq_list_refl, ok,
}
use gatherlink.Prelude.Int.{ℤ, pos, eq_ℤ, eq_ℤ_iff, ltb_ℤ, leb_ℤ, ◌+ℤ◌}
use gatherlink.Bytes.{Bytes}
use gatherlink.Security.Cipher.{Aead}
use gatherlink.Security.Identity.{
  Primitives, NodeIdentity, IsIdentity, x25519_shared_secret, from_identity,
  public_bytes-from_identity,
}
use gatherlink.Security.Topology.{TopologyBundleBody}
use gatherlink.Security.Envelope.{or_default}
use gatherlink.Security.Sessions.{
  initiator, responder, new_security_material, AuthenticatedSessionPlan, seconds,
  default_rekey_after_packets, default_rekey_after_bytes,
}
use gatherlink.Security.Sessions.Rotation.{generate_receiver_index}
use gatherlink.Security.Noise.State.{
  NoiseState, mix_key, decrypt_and_hash-encrypt_and_hash, derive_transport_keys,
}
use gatherlink.Security.Noise.Messages.{noise_ik, NoiseInitiation, AcceptedNoiseHandshake}
use gatherlink.Security.Noise.Directory.{topology_identity_by_node_id}
use gatherlink.Security.Noise.Handshake.{
  message_hash, state_for, verified_noise_initiation_header, accept_noise_ik_initiation,
  verified_noise_response, complete_noise_ik_initiator,
}
use gatherlink.Security.Noise.Run.{
  IsU32, IsListed, opening, sealed_static, closing, message_of, pending_of,
}

eq_ℤ_refl : (i : ℤ) → eq_ℤ i i ≡ true
eq_ℤ_refl i = (eq_ℤ_iff i i).1 refl

module _ (p : Primitives) (aead : Aead) (canonical : NoiseInitiation → Bytes) (a b : NodeIdentity)
    (topology : TopologyBundleBody) where
  -- What the responder answers, and the session that it makes.
  abbrev pub accepted_of :
      NoiseState
      → Bytes
      → Bytes
      → Bytes
      → Bytes
      → Bytes
      → NoiseInitiation
      → ℤ
      → ℤ
      → ℤ
      → AcceptedNoiseHandshake
  accepted_of s0 e1 e2 es ss ee message index now lifetime =
      let (first, second) =
        derive_transport_keys p aead (closing p aead canonical a b topology s0 e1 e2 es ss ee) in
      record {
        response = record {
          schema_version = pos 1;
          protocol = noise_ik;
          topology_generation = topology.generation;
          initiator_node_id = p.b64encode a.node_id;
          responder_node_id = p.b64encode b.node_id;
          initiation_hash = p.b64encode (message_hash p aead canonical message);
          responder_ephemeral_x25519 = p.b64encode (p.x25519_public e2);
          receiver_index = index;
          responder_receiver_index = index;
          created_at = now;
          expires_at = now +ℤ seconds lifetime;
        };
        session = record {
          local_node_id = p.b64encode b.node_id;
          peer_node_id = p.b64encode a.node_id;
          topology_generation = topology.generation;
          receiver_index = index;
          role = responder;
          created_at = now;
          expires_at = now +ℤ seconds lifetime;
          rekey_after_packets = default_rekey_after_packets;
          rekey_after_bytes = default_rekey_after_bytes;
          security = some (
              new_security_material index second first (some index)
                (some message.initiator_receiver_index));
        };
      }

  abbrev pub completed_of :
      NoiseState → Bytes → Bytes → Bytes → Bytes → Bytes → ℤ → ℤ → ℤ → ℤ → AuthenticatedSessionPlan
  completed_of s0 e1 e2 es ss ee mine theirs now expires =
      let (first, second) =
        derive_transport_keys p aead (closing p aead canonical a b topology s0 e1 e2 es ss ee) in
      record {
        local_node_id = p.b64encode a.node_id;
        peer_node_id = p.b64encode b.node_id;
        topology_generation = topology.generation;
        receiver_index = theirs;
        role = initiator;
        created_at = now;
        expires_at = expires;
        rekey_after_packets = default_rekey_after_packets;
        rekey_after_bytes = default_rekey_after_bytes;
        security = some (new_security_material theirs first second (some mine) (some theirs));
      }

  -- Both ends of an exchange with matching keys have the same result.
  same_exchange :
      (x y : Bytes) {z : Bytes}
      → length x ≡ 32
      → length y ≡ 32
      → x25519_shared_secret p x (p.x25519_public y) ≡ ok z
      → x25519_shared_secret p y (p.x25519_public x) ≡ ok z
  unfolding x25519_shared_secret
  same_exchange x y lx ly h = p.exchange_comm y x ly lx ∙ h

  pub accept_opened :
      (chosen : Option ℤ) (drawn : ℕ) (e1 e2 : Bytes) (index created now lifetime expires : ℤ)
      (s0 : NoiseState) (es ss ee : Bytes)
      → IsIdentity p a
      → IsIdentity p b
      → length e1 ≡ 32
      → length e2 ≡ 32
      → IsListed p topology a
      → IsU32 (or_default chosen (generate_receiver_index drawn))
      → leb_ℤ lifetime (pos 0) ≡ false
      → IsU32 index
      → (ltb_ℤ now created || ltb_ℤ expires now) ≡ false
      → state_for p aead canonical topology (p.b64encode a.node_id) (p.b64encode b.node_id) ≡ ok s0
      → x25519_shared_secret p e1 b.x25519_public ≡ ok es
      → x25519_shared_secret p a.x25519_private b.x25519_public ≡ ok ss
      → x25519_shared_secret p e1 (p.x25519_public e2) ≡ ok ee
      → accept_noise_ik_initiation p aead canonical b
          (message_of p aead canonical a b topology s0 e1 es index created expires)
          topology
          chosen
          drawn
          e2
          now
          lifetime
        ≡ ok (
            accepted_of s0 e1 e2 es ss ee
              (message_of p aead canonical a b topology s0 e1 es index created expires)
              (or_default chosen (generate_receiver_index drawn))
              now
              lifetime)
  unfolding accept_noise_ik_initiation verified_noise_initiation_header from_identity
  accept_opened chosen drawn e1 e2 index created now lifetime expires s0 es ss ee va vb l1 l2 listed
        fits positive fits1 window state first static ephemeral =
      let first' = same_exchange e1 b.x25519_private l1 vb.private (rw vb.public at first) in
      let static' : x25519_shared_secret p b.x25519_private a.x25519_public ≡ ok ss = rw va.public (
        same_exchange a.x25519_private b.x25519_private va.private vb.private
          (rw vb.public at static)) in
      rw
        (
          fits,
          positive,
          eq_ℤ_refl topology.generation,
          eq_list_refl (p.b64encode b.node_id),
          fits1,
          window,
          listed.by_node_id,
          p.b64decode-b64encode (p.x25519_public e1),
          p.length-x25519_public e1,
          state,
          first',
          p.b64decode-b64encode (sealed_static p aead canonical a b topology s0 e1 es).0,
          decrypt_and_hash-encrypt_and_hash p aead
              (mix_key p aead (opening p aead canonical a b topology s0 e1) es).1
              (mix_key p aead (opening p aead canonical a b topology s0 e1) es).0 a.x25519_public,
          listed.by_x25519,
          eq_list_refl (p.b64encode a.node_id),
          static',
          same_exchange e1 e2 l1 l2 ephemeral,
        )
        refl

  pub complete_opened :
      (e1 e2 : Bytes) (mine theirs created expires begun now : ℤ) (s0 : NoiseState)
      (es ss ee : Bytes) (lifetime : ℤ)
      → IsIdentity p a
      → IsIdentity p b
      → topology_identity_by_node_id topology (p.b64encode b.node_id) ≡ ok (from_identity p b)
      → IsU32 theirs
      → (ltb_ℤ now begun || ltb_ℤ (begun +ℤ seconds lifetime) now) ≡ false
      → state_for p aead canonical topology (p.b64encode a.node_id) (p.b64encode b.node_id) ≡ ok s0
      → x25519_shared_secret p e1 b.x25519_public ≡ ok es
      → x25519_shared_secret p a.x25519_private b.x25519_public ≡ ok ss
      → x25519_shared_secret p e1 (p.x25519_public e2) ≡ ok ee
      → complete_noise_ik_initiator p aead canonical a
          (pending_of p aead canonical a b topology s0 e1 es mine created expires)
          (accepted_of s0 e1 e2 es ss ee
            (message_of p aead canonical a b topology s0 e1 es mine created expires)
            theirs
            begun
            lifetime).response
          topology
          now
        ≡ ok (completed_of s0 e1 e2 es ss ee mine theirs now (begun +ℤ seconds lifetime))
  unfolding complete_noise_ik_initiator verified_noise_response from_identity
  complete_opened e1 e2 mine theirs created expires begun now s0 es ss ee lifetime va vb listed fits
        window state first static ephemeral =
      rw
        (
          eq_ℤ_refl topology.generation,
          eq_list_refl (p.b64encode a.node_id),
          eq_list_refl (
              p.b64encode (
                message_hash p aead canonical
                  (message_of p aead canonical a b topology s0 e1 es mine created expires))),
          fits,
          window,
          listed,
          p.b64decode-b64encode (p.x25519_public e1),
          p.b64decode-b64encode (p.x25519_public e2),
          p.length-x25519_public e2,
          state,
          public_bytes-from_identity p b vb,
          first,
          p.b64decode-b64encode (sealed_static p aead canonical a b topology s0 e1 es).0,
          eq_list_refl (sealed_static p aead canonical a b topology s0 e1 es).0,
          static,
          ephemeral,
        )
        refl
