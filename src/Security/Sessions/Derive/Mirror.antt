-- ===== src/Security/Sessions/Derive/Mirror.antt =====
-- The two ends of a session in python/gatherlink/security/sessions.py derive the same two keys, each
-- for the opposite direction.
use gatherlink.Prelude.{
  ◌≡◌, ◌≢◌, refl, sym, ◌∙◌, none, false, ◌||◌, eq_list, eq_list→eq, Result, ok, err, raise_if-eq-ok,
  ◌>>=◌, >>=-eq-ok, Bool-cases, inl, inr,
}
use gatherlink.Prelude.Int.{ℤ, pos, ltb_ℤ, leb_ℤ}
use gatherlink.Bytes.{Bytes}
use gatherlink.Security.Identity.{
  Primitives, NodeIdentity, IsIdentity, x25519_shared_secret, from_identity,
  public_bytes-from_identity,
}
use gatherlink.Security.Sessions.{
  initiator, responder, DirectionalSessionKeys, StaticTransportSecurityMaterial,
  new_security_material,
}
use gatherlink.Security.Sessions.Derive.{
  derive_directional_session_keys, static_session_transcript_hash, ordered_parties, directed,
  derive_static_transport_security,
}

abbrev InU32 : ℤ → Type 0
InU32 i = (ltb_ℤ i (pos 0) || leb_ℤ (pos 4294967296) i) ≡ false

-- Three results in a row, and one more.
>>=_assoc {ℓ} :
    {A B C D : Type ℓ} (m : Result A) (n : Result B) (f : B → A → Result C) (h : C → Result D)
    → (m >>= λ a. n >>= λ b. f b a >>= h) ≡ ((m >>= λ a. n >>= λ b. f b a) >>= h)
>>=_assoc (ok a) (ok b) f h = refl
>>=_assoc (ok a) (err e) f h = refl
>>=_assoc (err e) n f h = refl

module _ (p : Primitives) where
  -- The keys of a session that the identity `a` begins with the identity `b`.
  abbrev session_keys : NodeIdentity → NodeIdentity → Bytes → Result DirectionalSessionKeys
  session_keys a b context = do
    transcript_hash ←
        static_session_transcript_hash p a.node_id b.node_id a.x25519_public b.x25519_public context
    shared_secret ← x25519_shared_secret p a.x25519_private b.x25519_public
    derive_directional_session_keys p shared_secret transcript_hash

  differ : (xs ys : Bytes) → xs ≢ ys → eq_list xs ys ≡ false
  differ xs ys n = elim (Bool-cases (eq_list xs ys)) [
    | inl same ↦ absurd (n (eq_list→eq xs ys same))
    | inr other ↦ other
  ]

  index_in_range :
      (a b : NodeIdentity) (index : ℤ) (context : Bytes) {mine : StaticTransportSecurityMaterial}
      → derive_static_transport_security p a (from_identity p b) initiator index context ≡ ok mine
      → InU32 index
  unfolding derive_static_transport_security
  index_in_range a b index context h =
      (raise_if-eq-ok (ltb_ℤ index (pos 0) || leb_ℤ (pos 4294967296) index) _ _ h).0

  derive-initiator :
      (a b : NodeIdentity) (index : ℤ) (context : Bytes)
      → IsIdentity p b
      → b.node_id ≢ a.node_id
      → InU32 index
      → derive_static_transport_security p a (from_identity p b) initiator index context ≡ (
          session_keys a b context >>= λ k.
          ok (
            new_security_material index k.initiator_to_responder k.responder_to_initiator none
              none))
  unfolding derive_static_transport_security ordered_parties directed
  derive-initiator a b index context v n i =
      rw (i, public_bytes-from_identity p b v, differ b.node_id a.node_id n)
        (>>=_assoc
          (static_session_transcript_hash p a.node_id b.node_id a.x25519_public b.x25519_public
            context)
          (x25519_shared_secret p a.x25519_private b.x25519_public)
          (derive_directional_session_keys p)
          (λ k. ok (
            new_security_material index k.initiator_to_responder k.responder_to_initiator none
              none)))

  derive-responder :
      (a b : NodeIdentity) (index : ℤ) (context : Bytes)
      → IsIdentity p a
      → IsIdentity p b
      → a.node_id ≢ b.node_id
      → InU32 index
      → derive_static_transport_security p b (from_identity p a) responder index context ≡ (
          session_keys a b context >>= λ k.
          ok (
            new_security_material index k.responder_to_initiator k.initiator_to_responder none
              none))
  unfolding derive_static_transport_security ordered_parties directed x25519_shared_secret
  derive-responder a b index context va vb n i =
      let agreed : p.exchange b.x25519_private a.x25519_public
          ≡ p.exchange a.x25519_private b.x25519_public =
        rw (va.public, vb.public)
          (p.exchange_comm b.x25519_private a.x25519_private vb.private va.private) in
      rw (i, public_bytes-from_identity p a va, differ a.node_id b.node_id n, agreed)
        (>>=_assoc
          (static_session_transcript_hash p a.node_id b.node_id a.x25519_public b.x25519_public
            context)
          (p.exchange a.x25519_private b.x25519_public) (derive_directional_session_keys p)
          (λ k. ok (
            new_security_material index k.responder_to_initiator k.initiator_to_responder none
              none)))

  -- When two well-formed identities have different node ids and the initiator derives its key
  -- material for an index and a context, the responder derives material for them too: each
  -- receives with the key and the index that the other sends with.
  pub derive_static_transport_security-Mirrors :
      (a b : NodeIdentity) (index : ℤ) (context : Bytes) {mine : StaticTransportSecurityMaterial}
      → IsIdentity p a
      → IsIdentity p b
      → a.node_id ≢ b.node_id
      → derive_static_transport_security p a (from_identity p b) initiator index context ≡ ok mine
      → (theirs : StaticTransportSecurityMaterial) × (derive_static_transport_security p b
            (from_identity p a)
            responder
            index
            context
          ≡ ok theirs)
        × (theirs.receive_key ≡ mine.send_key)
        × (theirs.send_key ≡ mine.receive_key)
        × (theirs.local_receiver_index ≡ mine.remote_receiver_index)
        × (mine.local_receiver_index ≡ theirs.remote_receiver_index)
  unfolding new_security_material
  derive_static_transport_security-Mirrors a b index context {mine} va vb n h =
      let i = index_in_range a b index context h in
      let h' = sym (derive-initiator a b index context vb (λ e. n (sym e)) i) ∙ h in
      let (k, e, made) = >>=-eq-ok (session_keys a b context) _ h' in
      (
        new_security_material index k.responder_to_initiator k.initiator_to_responder none none,
        derive-responder a b index context va vb n i ∙ rw e refl,
        cc made,
        cc made,
        cc made,
        cc made,
      )
