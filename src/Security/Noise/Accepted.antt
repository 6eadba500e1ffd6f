-- ===== src/Security/Noise/Accepted.antt =====
-- What python/gatherlink/security/noise.py has checked when a responder accepts an initiation,
-- whatever message it was given.
use gatherlink.Prelude.{
  ℕ, ◌≡◌, refl, Ensures, returns, after_step, after_test, Ensures-ok, Bool, true, false, not, ◌||◌,
  List, [], ◌∷◌, Option, length, ◌==◌, any, eq_list, eq_list→eq, ok, raise_if-eq-ok, >>=-eq-ok,
  arith, Bool-cases, inl, inr,
}
use gatherlink.Prelude.Int.{ℤ, pos, eq_ℤ, eq_ℤ_iff, ltb_ℤ, leb_ℤ, ◌+ℤ◌, ◌≤ℤ◌}
use gatherlink.Bytes.{Bytes}
use gatherlink.Text.{Text}
use gatherlink.Security.Cipher.{Aead}
use gatherlink.Security.Identity.{
  Primitives, NodeIdentity, IdentityPublicRecord, x25519_shared_secret, from_identity,
}
use gatherlink.Security.Topology.{ProvisionedNode, TopologyBundleBody, is_revoked, has_id}
use gatherlink.Security.Envelope.{or_default}
use gatherlink.Security.Sessions.{seconds}
use gatherlink.Security.Sessions.Rotation.{generate_receiver_index}
use gatherlink.Security.Sessions.Derive.Plan.{IsAuthorized}
use gatherlink.Security.Noise.State.{mix_hash, mix_key, decrypt_and_hash}
use gatherlink.Security.Noise.Messages.{noise_ik, NoiseInitiation, AcceptedNoiseHandshake}
use gatherlink.Security.Noise.Directory.{
  find_node_id, topology_identity_by_node_id, topology_identity_by_x25519,
}
use gatherlink.Security.Noise.Handshake.{
  state_for, verified_noise_initiation_header, accept_noise_ik_initiation,
}

find_node_id_sound :
    (node_id : Text) (nodes : List ProvisionedNode) {r : IdentityPublicRecord}
    → find_node_id node_id nodes ≡ ok r
    → (any (has_id node_id) nodes ≡ true) × (eq_list r.node_id node_id ≡ true)
unfolding find_node_id
find_node_id_sound node_id [] h = absurd (cc)
find_node_id_sound node_id (n ∷ nodes) {r} h =
    ground (arith, find_node_id_sound node_id nodes {r = r})

pub by_node_id_sound :
    (topology : TopologyBundleBody) (node_id : Text) {r : IdentityPublicRecord}
    → topology_identity_by_node_id topology node_id ≡ ok r
    → IsAuthorized topology node_id × (r.node_id ≡ node_id)
unfolding topology_identity_by_node_id
by_node_id_sound topology node_id {r} h = elim (Bool-cases (is_revoked topology node_id)) [
  | inl gone ↦ let h' = rw gone at h in absurd (cc h')
  | inr live ↦
      let (m, e) = find_node_id_sound node_id topology.nodes (rw live at h) in
      ((live, m), eq_list→eq r.node_id node_id e)
]

pub in_window_sound : (a b c : ℤ) → (ltb_ℤ b a || ltb_ℤ c b) ≡ false → (a ≤ℤ b) × (b ≤ℤ c)
in_window_sound a b c h = ground arith

pub true_of_not : (b : Bool) → not b ≡ false → b ≡ true
true_of_not true h = refl
true_of_not false h = absurd (cc)

module _ (p : Primitives) (aead : Aead) (canonical : NoiseInitiation → Bytes) where
  -- What the header of an initiation must meet.
  pub record IsFresh (message : NoiseInitiation) (topology : TopologyBundleBody) (node_id : Text)
      (now : ℤ) : Type 0 where
    pub generation : message.topology_generation ≡ topology.generation
    pub addressee : message.responder_node_id ≡ node_id
    pub begun : message.created_at ≤ℤ now
    pub not_over : now ≤ℤ message.expires_at
    pub sender : IsAuthorized topology message.initiator_node_id

  header_sound :
      (message : NoiseInitiation) (topology : TopologyBundleBody) (r : IdentityPublicRecord)
      (now : ℤ)
      → verified_noise_initiation_header p aead canonical message topology r now ≡ ok tt
      → IsFresh message topology r.node_id now
  unfolding verified_noise_initiation_header
  header_sound message topology r now h =
      let (_, h1) =
        raise_if-eq-ok
          (not (eq_list message.protocol noise_ik) || not (eq_ℤ message.schema_version (pos 1))) _ _
          h in
      let (g, h2) =
        raise_if-eq-ok (not (eq_ℤ message.topology_generation topology.generation)) _ _ h1 in
      let (n, h3) = raise_if-eq-ok (not (eq_list message.responder_node_id r.node_id)) _ _ h2 in
      let (_, h4) =
        raise_if-eq-ok
          (ltb_ℤ message.initiator_receiver_index (pos 0)
            || leb_ℤ (pos 4294967296) message.initiator_receiver_index)
          _ _ h3 in
      let (w, h5) =
        raise_if-eq-ok (ltb_ℤ now message.created_at || ltb_ℤ message.expires_at now) _ _ h4 in
      let (found, e, _) =
        >>=-eq-ok (topology_identity_by_node_id topology message.initiator_node_id) _ h5 in
      let (begun, not_over) = in_window_sound message.created_at now message.expires_at w in
      record {
        generation = (eq_ℤ_iff message.topology_generation topology.generation).0 (true_of_not _ g);
        addressee = eq_list→eq message.responder_node_id r.node_id (true_of_not _ n);
        begun = begun;
        not_over = not_over;
        sender = (by_node_id_sound topology message.initiator_node_id e).0;
      }

  abbrev AcceptsFresh :
      NodeIdentity → NoiseInitiation → TopologyBundleBody → ℤ → ℤ → AcceptedNoiseHandshake → Type 0
  AcceptsFresh b message topology now lifetime accepted =
      IsFresh message topology (from_identity p b).node_id now
      × (accepted.session.local_node_id ≡ (from_identity p b).node_id)
      × (accepted.session.peer_node_id ≡ message.initiator_node_id)
      × (accepted.session.expires_at ≡ now +ℤ seconds lifetime)
      × (leb_ℤ lifetime (pos 0) ≡ false)

  accept-Ensures :
      (b : NodeIdentity) (message : NoiseInitiation) (topology : TopologyBundleBody)
      (chosen : Option ℤ) (drawn : ℕ) (e2 : Bytes) (now lifetime : ℤ)
      → Ensures (AcceptsFresh b message topology now lifetime) (
          accept_noise_ik_initiation p aead canonical b message topology chosen drawn e2 now
            lifetime)
  unfolding accept_noise_ik_initiation
  accept-Ensures b message topology chosen drawn e2 now lifetime =
      let index = or_default chosen (generate_receiver_index drawn) in
      let me = from_identity p b in
      let P = AcceptsFresh b message topology now lifetime in
      after_test P (ltb_ℤ index (pos 0) || leb_ℤ (pos 4294967296) index) _ _ (λ _.
        after_test P (leb_ℤ lifetime (pos 0)) _ _ (λ positive.
          after_step P (verified_noise_initiation_header p aead canonical message topology me now) _
            (λ u vetted. after_step P (p.b64decode message.initiator_ephemeral_x25519) _ (λ e1 _.
              after_test P (not (length e1 == 32)) _ _ (λ _.
                after_step P
                  (state_for p aead canonical topology message.initiator_node_id me.node_id) _
                  (λ s0 _. after_step P (x25519_shared_secret p b.x25519_private e1) _ (λ es _.
                    after_step P (p.b64decode message.encrypted_initiator_static_x25519) _ (λ c _.
                      let s3 =
                        mix_key p aead (mix_hash p aead (mix_hash p aead s0 b.x25519_public) e1)
                          es in
                      after_step P (decrypt_and_hash p aead s3.1 s3.0 c) _ (λ opened _.
                        after_step P (topology_identity_by_x25519 p topology opened.0) _ (λ peer _.
                          after_test P (not (eq_list peer.node_id message.initiator_node_id)) _ _
                            (λ same.
                              after_step P (x25519_shared_secret p b.x25519_private opened.0) _
                                (λ ss _. after_step P (x25519_shared_secret p e2 e1) _ (λ ee _.
                                  after_step P (x25519_shared_secret p b.x25519_private e1) _
                                    (λ es' _. returns (
                                      header_sound message topology me now vetted,
                                      refl,
                                      eq_list→eq peer.node_id message.initiator_node_id
                                          (true_of_not _ same),
                                      refl,
                                      positive,
                                    )))))))))))))))

  -- When a responder accepts an initiation, whatever it holds, the initiation is for the node
  -- of the responder's own identity, which the session has as its local node, and for the
  -- topology's generation, it has begun and is not over, its sender is listed and not revoked,
  -- the session is with that sender, and it expires the positive lifetime from now.
  pub accept_noise_ik_initiation-IsFresh :
      (b : NodeIdentity) (message : NoiseInitiation) (topology : TopologyBundleBody)
      (chosen : Option ℤ) (drawn : ℕ) (e2 : Bytes) (now lifetime : ℤ)
      {accepted : AcceptedNoiseHandshake}
      → accept_noise_ik_initiation p aead canonical b message topology chosen drawn e2 now lifetime
        ≡ ok accepted
      → IsFresh message topology (from_identity p b).node_id now
        × (accepted.session.local_node_id ≡ (from_identity p b).node_id)
        × (accepted.session.peer_node_id ≡ message.initiator_node_id)
        × (accepted.session.expires_at ≡ now +ℤ seconds lifetime)
        × (leb_ℤ lifetime (pos 0) ≡ false)
  accept_noise_ik_initiation-IsFresh b message topology chosen drawn e2 now lifetime h =
      Ensures-ok (AcceptsFresh b message topology now lifetime)
        (accept-Ensures b message topology chosen drawn e2 now lifetime) h
