-- ===== src/Security/Noise/Agreement.antt =====
-- A handshake of python/gatherlink/security/noise.py between two honest nodes comes to its end, and
-- both have the same keys.
use gatherlink.Prelude.{ℕ, ◌≡◌, refl, Option, some, length, ok, false}
use gatherlink.Prelude.Int.{ℤ, pos, leb_ℤ, ◌+ℤ◌, ◌≤ℤ◌}
use gatherlink.Bytes.{Bytes}
use gatherlink.Security.Cipher.{Aead}
use gatherlink.Security.Identity.{
  Primitives, NodeIdentity, IsIdentity, x25519_shared_secret, from_identity,
}
use gatherlink.Security.Topology.{TopologyBundleBody}
use gatherlink.Security.Envelope.{or_default}
use gatherlink.Security.Sessions.{
  StaticTransportSecurityMaterial, new_security_material, AuthenticatedSessionPlan, seconds,
}
use gatherlink.Security.Sessions.Rotation.{generate_receiver_index}
use gatherlink.Security.Noise.State.{derive_transport_keys}
use gatherlink.Security.Noise.Messages.{
  NoiseInitiation, PendingNoiseInitiation, AcceptedNoiseHandshake,
}
use gatherlink.Security.Noise.Directory.{topology_identity_by_node_id}
use gatherlink.Security.Noise.Handshake.{
  create_noise_ik_initiation, accept_noise_ik_initiation, complete_noise_ik_initiator,
}
use gatherlink.Security.Noise.Run.{IsU32, IsListed, in_window, create-Opened, closing, message_of}
use gatherlink.Security.Noise.Ends.{accepted_of, accept_opened, completed_of, complete_opened}

-- The sessions of the two ends: each names the other, and sends with what the other receives with.
pub record AreMirrored (x y : AuthenticatedSessionPlan) : Type 0 where
  pub mine : StaticTransportSecurityMaterial
  pub theirs : StaticTransportSecurityMaterial
  pub mine_is : x.security ≡ some mine
  pub theirs_is : y.security ≡ some theirs
  pub sent : mine.send_key ≡ theirs.receive_key
  pub received : mine.receive_key ≡ theirs.send_key
  pub local_index : mine.local_receiver_index ≡ theirs.remote_receiver_index
  pub remote_index : mine.remote_receiver_index ≡ theirs.local_receiver_index
  pub local_node : x.local_node_id ≡ y.peer_node_id
  pub peer_node : x.peer_node_id ≡ y.local_node_id
  pub generation : x.topology_generation ≡ y.topology_generation
  pub expiry : x.expires_at ≡ y.expires_at

module _ (p : Primitives) (aead : Aead) (canonical : NoiseInitiation → Bytes) (a b : NodeIdentity)
    (topology : TopologyBundleBody) where
  -- When the topology lists two well-formed identities, the initiator makes an initiation, and
  -- each message arrives in time, the responder accepts it and the initiator completes the
  -- handshake: each names the other, sends with the key and the index that the other receives
  -- with, and both sessions expire together. The responder finds the initiator by its static
  -- key, its index fits 32 bits, and the exchange of the ephemeral keys succeeds.
  pub noise_ik-AreMirrored :
      (chosen1 : Option ℤ) (drawn1 : ℕ) (e1 : Bytes) (now1 lifetime1 : ℤ) (chosen2 : Option ℤ)
      (drawn2 : ℕ) (e2 : Bytes) (now2 lifetime2 now3 : ℤ) {pending : PendingNoiseInitiation}
      {ee : Bytes}
      → IsIdentity p a
      → IsIdentity p b
      → length e1 ≡ 32
      → length e2 ≡ 32
      → IsListed p topology a
      → topology_identity_by_node_id topology (p.b64encode b.node_id) ≡ ok (from_identity p b)
      → IsU32 (or_default chosen2 (generate_receiver_index drawn2))
      → leb_ℤ lifetime2 (pos 0) ≡ false
      → create_noise_ik_initiation p aead canonical a
          (from_identity p b)
          topology
          chosen1
          drawn1
          e1
          now1
          lifetime1
        ≡ ok pending
      → now1 ≤ℤ now2
      → now2 ≤ℤ now1 +ℤ seconds lifetime1
      → now2 ≤ℤ now3
      → now3 ≤ℤ now2 +ℤ seconds lifetime2
      → x25519_shared_secret p e1 (p.x25519_public e2) ≡ ok ee
      → (accepted : AcceptedNoiseHandshake) × (plan : AuthenticatedSessionPlan)
        × (accept_noise_ik_initiation p aead canonical b pending.message topology chosen2 drawn2 e2
              now2 lifetime2
            ≡ ok accepted)
        × (complete_noise_ik_initiator p aead canonical a pending accepted.response topology now3
            ≡ ok plan)
        × AreMirrored plan accepted.session
  unfolding new_security_material
  noise_ik-AreMirrored chosen1 drawn1 e1 now1 lifetime1 chosen2 drawn2 e2 now2 lifetime2 now3
        {pending} {ee} va vb l1 l2 la lb fits positive created w1 w2 w3 w4 ephemeral =
      let o =
        create-Opened p aead canonical a b topology chosen1 drawn1 e1 now1 lifetime1 vb created in
      let index1 = or_default chosen1 (generate_receiver_index drawn1) in
      let index2 = or_default chosen2 (generate_receiver_index drawn2) in
      let expires = now1 +ℤ seconds lifetime1 in
      let answered =
        accept_opened p aead canonical a b topology chosen2 drawn2 e1 e2 index1 now1 now2 lifetime2
          expires o.s0 o.es o.ss ee va vb l1 l2 la fits positive o.fits
          (in_window now1 now2 expires w1 w2) o.state o.first o.static ephemeral in
      let ended =
        complete_opened p aead canonical a b topology e1 e2 index1 index2 now1 expires now2 now3
          o.s0 o.es o.ss ee lifetime2 va vb lb fits
          (in_window now2 now3 (now2 +ℤ seconds lifetime2) w3 w4) o.state o.first o.static
          ephemeral in
      let same = o.made in
      let keys =
        derive_transport_keys p aead
          (closing p aead canonical a b topology o.s0 e1 e2 o.es o.ss ee) in
      (
        accepted_of p aead canonical a b topology o.s0 e1 e2 o.es o.ss ee
            (message_of p aead canonical a b topology o.s0 e1 o.es index1 now1 expires) index2 now2
            lifetime2,
        completed_of p aead canonical a b topology o.s0 e1 e2 o.es o.ss ee index1 index2 now3
            (now2 +ℤ seconds lifetime2),
        rw same answered,
        rw same ended,
        record {
          mine_is = refl;
          theirs_is = refl;
          sent = refl;
          received = refl;
          local_index = refl;
          remote_index = refl;
          local_node = refl;
          peer_node = refl;
          generation = refl;
          expiry = refl;
          mine = new_security_material index2 keys.0 keys.1 (some index1) (some index2);
          theirs = new_security_material index2 keys.1 keys.0 (some index2) (some index1);
        },
      )
