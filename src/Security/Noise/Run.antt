-- ===== src/Security/Noise/Run.antt =====
-- One run of the handshake of python/gatherlink/security/noise.py between two honest nodes, step by
-- step.
use gatherlink.Prelude.{ℕ, ◌≡◌, false, ◌||◌, Option, ok, raise_if-eq-ok, >>=-eq-ok, arith}
use gatherlink.Prelude.Int.{ℤ, pos, ltb_ℤ, leb_ℤ, ◌+ℤ◌, ◌≤ℤ◌}
use gatherlink.Bytes.{Bytes}
use gatherlink.Security.Cipher.{Aead}
use gatherlink.Security.Identity.{
  Primitives, NodeIdentity, IsIdentity, x25519_shared_secret, from_identity,
  public_bytes-from_identity,
}
use gatherlink.Security.Topology.{TopologyBundleBody, require_topology_member}
use gatherlink.Security.Envelope.{or_default}
use gatherlink.Security.Sessions.{seconds}
use gatherlink.Security.Sessions.Rotation.{generate_receiver_index}
use gatherlink.Security.Noise.State.{NoiseState, mix_hash, mix_key, encrypt_and_hash}
use gatherlink.Security.Noise.Messages.{noise_ik, NoiseInitiation, PendingNoiseInitiation}
use gatherlink.Security.Noise.Directory.{topology_identity_by_node_id, topology_identity_by_x25519}
use gatherlink.Security.Noise.Handshake.{state_for, create_noise_ik_initiation}

-- A receiver index that fits 32 bits.
abbrev pub IsU32 : ℤ → Type 0
IsU32 i = (ltb_ℤ i (pos 0) || leb_ℤ (pos 4294967296) i) ≡ false

-- The topology finds the identity by its node id and by its static key.
pub record IsListed (p : Primitives) (topology : TopologyBundleBody) (identity : NodeIdentity)
    : Type 0 where
  pub by_node_id :
      topology_identity_by_node_id topology (p.b64encode identity.node_id)
      ≡ ok (from_identity p identity)
  pub by_x25519 :
      topology_identity_by_x25519 p topology identity.x25519_public ≡ ok (from_identity p identity)

pub in_window : (a b c : ℤ) → a ≤ℤ b → b ≤ℤ c → (ltb_ℤ b a || ltb_ℤ c b) ≡ false
in_window a b c l r = ground arith

module _ (p : Primitives) (aead : Aead) (canonical : NoiseInitiation → Bytes) (a b : NodeIdentity)
    (topology : TopologyBundleBody) where
  -- The states of a run, from the first state and the results of the exchanges.
  abbrev pub opening : NoiseState → Bytes → NoiseState
  opening s0 e1 = mix_hash p aead (mix_hash p aead s0 b.x25519_public) (p.x25519_public e1)

  abbrev pub sealed_static : NoiseState → Bytes → Bytes → Bytes × NoiseState
  sealed_static s0 e1 es =
      let (k, s3) = mix_key p aead (opening s0 e1) es in
      encrypt_and_hash p aead s3 k a.x25519_public

  abbrev pub closing : NoiseState → Bytes → Bytes → Bytes → Bytes → Bytes → NoiseState
  closing s0 e1 e2 es ss ee =
      let s5 = (mix_key p aead (sealed_static s0 e1 es).1 ss).1 in
      let s7 = (mix_key p aead (mix_hash p aead s5 (p.x25519_public e2)) ee).1 in
      (mix_key p aead s7 es).1

  abbrev pub message_of : NoiseState → Bytes → Bytes → ℤ → ℤ → ℤ → NoiseInitiation
  message_of s0 e1 es index created expires = record {
    schema_version = pos 1;
    protocol = noise_ik;
    topology_generation = topology.generation;
    initiator_node_id = p.b64encode a.node_id;
    responder_node_id = p.b64encode b.node_id;
    initiator_receiver_index = index;
    initiator_ephemeral_x25519 = p.b64encode (p.x25519_public e1);
    encrypted_initiator_static_x25519 = p.b64encode (sealed_static s0 e1 es).0;
    created_at = created;
    expires_at = expires;
  }

  abbrev pub pending_of : NoiseState → Bytes → Bytes → ℤ → ℤ → ℤ → PendingNoiseInitiation
  pending_of s0 e1 es index created expires = record {
    message = message_of s0 e1 es index created expires;
    ephemeral_private = e1;
    created_at = created;
    expires_at = expires;
  }

  -- What the initiation has established.
  pub record Opened (e1 : Bytes) (index now lifetime : ℤ) (pending : PendingNoiseInitiation)
      : Type 0 where
    pub s0 : NoiseState
    pub es : Bytes
    pub ss : Bytes
    pub state :
        state_for p aead canonical topology (p.b64encode a.node_id) (p.b64encode b.node_id) ≡ ok s0
    pub first : x25519_shared_secret p e1 b.x25519_public ≡ ok es
    pub static : x25519_shared_secret p a.x25519_private b.x25519_public ≡ ok ss
    pub fits : IsU32 index
    pub made : pending ≡ pending_of s0 e1 es index now (now +ℤ seconds lifetime)

  pub create-Opened :
      (chosen : Option ℤ) (drawn : ℕ) (e1 : Bytes) (now lifetime : ℤ)
      {pending : PendingNoiseInitiation}
      → IsIdentity p b
      → create_noise_ik_initiation p aead canonical a
          (from_identity p b)
          topology
          chosen
          drawn
          e1
          now
          lifetime
        ≡ ok pending
      → Opened e1 (or_default chosen (generate_receiver_index drawn)) now lifetime pending
  unfolding create_noise_ik_initiation from_identity
  create-Opened chosen drawn e1 now lifetime {pending} vb h =
      let index = or_default chosen (generate_receiver_index drawn) in
      let (_, h1) = raise_if-eq-ok (leb_ℤ lifetime (pos 0)) _ _ h in
      let (fits, h2) =
        raise_if-eq-ok (ltb_ℤ index (pos 0) || leb_ℤ (pos 4294967296) index) _ _ h1 in
      let (_, _, h3) = >>=-eq-ok (require_topology_member topology (from_identity p a)) _ h2 in
      let (_, _, h4) = >>=-eq-ok (require_topology_member topology (from_identity p b)) _ h3 in
      let h5 = rw (public_bytes-from_identity p b vb) at h4 in
      let (s0, state, h6) =
        >>=-eq-ok
          (state_for p aead canonical topology (p.b64encode a.node_id) (p.b64encode b.node_id)) _
          h5 in
      let (es, first, h7) = >>=-eq-ok (x25519_shared_secret p e1 b.x25519_public) _ h6 in
      let (ss, static, h8) =
        >>=-eq-ok (x25519_shared_secret p a.x25519_private b.x25519_public) _ h7 in
      record {
        s0 = s0;
        es = es;
        ss = ss;
        state = state;
        first = first;
        static = static;
        fits = fits;
        made = cc h8;
      }
