-- ===== src/Security/Noise/Replied.antt =====
-- What python/gatherlink/security/noise.py has checked when an initiator completes a handshake,
-- whatever message it was given.
use gatherlink.Prelude.{
  ◌≡◌, refl, Ensures, returns, after_step, after_test, Ensures-ok, not, ◌||◌, length, ◌==◌, eq_list,
  eq_list→eq, ok, raise_if-eq-ok, >>=-eq-ok,
}
use gatherlink.Prelude.Int.{ℤ, pos, eq_ℤ, eq_ℤ_iff, ltb_ℤ, leb_ℤ, ◌≤ℤ◌}
use gatherlink.Bytes.{Bytes}
use gatherlink.Text.{Text}
use gatherlink.Security.Cipher.{Aead}
use gatherlink.Security.Identity.{
  Primitives, NodeIdentity, IdentityPublicRecord, x25519_shared_secret, from_identity, public_bytes,
}
use gatherlink.Security.Topology.{TopologyBundleBody}
use gatherlink.Security.Sessions.{AuthenticatedSessionPlan}
use gatherlink.Security.Sessions.Derive.Plan.{IsAuthorized}
use gatherlink.Security.Noise.State.{mix_hash, mix_key, encrypt_and_hash}
use gatherlink.Security.Noise.Messages.{
  noise_ik, NoiseInitiation, NoiseResponse, PendingNoiseInitiation,
}
use gatherlink.Security.Noise.Directory.{topology_identity_by_node_id}
use gatherlink.Security.Noise.Handshake.{
  message_hash, state_for, verified_noise_response, complete_noise_ik_initiator,
}
use gatherlink.Security.Noise.Accepted.{by_node_id_sound, in_window_sound, true_of_not}

module _ (p : Primitives) (aead : Aead) (canonical : NoiseInitiation → Bytes) where
  -- What a response must meet for the initiation that is pending.
  pub record IsReply (message : NoiseResponse) (pending : PendingNoiseInitiation)
      (topology : TopologyBundleBody) (node_id : Text) (now : ℤ) : Type 0 where
    pub generation : message.topology_generation ≡ topology.generation
    pub addressee : message.initiator_node_id ≡ node_id
    pub initiation :
        message.initiation_hash ≡ p.b64encode (message_hash p aead canonical pending.message)
    pub begun : message.created_at ≤ℤ now
    pub not_over : now ≤ℤ message.expires_at
    pub sender : IsAuthorized topology message.responder_node_id

  response_sound :
      (message : NoiseResponse) (pending : PendingNoiseInitiation) (topology : TopologyBundleBody)
      (r : IdentityPublicRecord) (now : ℤ)
      → verified_noise_response p aead canonical message pending topology r now ≡ ok tt
      → IsReply message pending topology r.node_id now
  unfolding verified_noise_response
  response_sound message pending topology r now h =
      let mine = p.b64encode (message_hash p aead canonical pending.message) in
      let (_, h1) =
        raise_if-eq-ok
          (not (eq_list message.protocol noise_ik) || not (eq_ℤ message.schema_version (pos 1))) _ _
          h in
      let (g, h2) =
        raise_if-eq-ok (not (eq_ℤ message.topology_generation topology.generation)) _ _ h1 in
      let (n, h3) = raise_if-eq-ok (not (eq_list message.initiator_node_id r.node_id)) _ _ h2 in
      let (i, h4) = raise_if-eq-ok (not (eq_list message.initiation_hash mine)) _ _ h3 in
      let (_, h5) =
        raise_if-eq-ok
          (ltb_ℤ message.responder_receiver_index (pos 0)
            || leb_ℤ (pos 4294967296) message.responder_receiver_index)
          _ _ h4 in
      let (w, h6) =
        raise_if-eq-ok (ltb_ℤ now message.created_at || ltb_ℤ message.expires_at now) _ _ h5 in
      let (found, e, _) =
        >>=-eq-ok (topology_identity_by_node_id topology message.responder_node_id) _ h6 in
      let (begun, not_over) = in_window_sound message.created_at now message.expires_at w in
      record {
        generation = (eq_ℤ_iff message.topology_generation topology.generation).0 (true_of_not _ g);
        addressee = eq_list→eq message.initiator_node_id r.node_id (true_of_not _ n);
        initiation = eq_list→eq message.initiation_hash mine (true_of_not _ i);
        begun = begun;
        not_over = not_over;
        sender = (by_node_id_sound topology message.responder_node_id e).0;
      }

  abbrev CompletesReply :
      NodeIdentity
      → PendingNoiseInitiation
      → NoiseResponse
      → TopologyBundleBody
      → ℤ
      → AuthenticatedSessionPlan
      → Type 0
  CompletesReply a pending message topology now plan =
      IsReply message pending topology (from_identity p a).node_id now
      × (plan.local_node_id ≡ (from_identity p a).node_id)
      × (plan.peer_node_id ≡ message.responder_node_id)
      × (plan.expires_at ≡ message.expires_at)

  complete-Ensures :
      (a : NodeIdentity) (pending : PendingNoiseInitiation) (message : NoiseResponse)
      (topology : TopologyBundleBody) (now : ℤ)
      → Ensures
          (CompletesReply a pending message topology now)
          (complete_noise_ik_initiator p aead canonical a pending message topology now)
  unfolding complete_noise_ik_initiator
  complete-Ensures a pending message topology now =
      let me = from_identity p a in
      let P = CompletesReply a pending message topology now in
      after_step P (verified_noise_response p aead canonical message pending topology me now) _
        (λ u vetted.
          after_step P (topology_identity_by_node_id topology message.responder_node_id) _
            (λ peer e.
              after_step P (p.b64decode pending.message.initiator_ephemeral_x25519) _ (λ e1 _.
                after_step P (p.b64decode message.responder_ephemeral_x25519) _ (λ e2 _.
                  after_test P (not (length e2 == 32)) _ _ (λ _.
                    after_step P (state_for p aead canonical topology me.node_id peer.node_id) _
                      (λ s0 _. after_step P (public_bytes p peer) _ (λ found _.
                        after_step P (x25519_shared_secret p pending.ephemeral_private found.2) _
                          (λ es _.
                            after_step P
                              (p.b64decode pending.message.encrypted_initiator_static_x25519) _
                              (λ c _.
                                let s3 =
                                  mix_key p aead (mix_hash p aead (mix_hash p aead s0 found.2) e1)
                                    es in
                                after_test P
                                  (not (
                                    eq_list (encrypt_and_hash p aead s3.1 s3.0 a.x25519_public).0
                                      c))
                                  _ _
                                  (λ _.
                                    after_step P (x25519_shared_secret p a.x25519_private found.2) _
                                      (λ ss _.
                                        after_step P
                                          (x25519_shared_secret p pending.ephemeral_private e2) _
                                          (λ ee _.
                                            after_step P
                                              (x25519_shared_secret p pending.ephemeral_private
                                                found.2)
                                              _
                                              (λ es' _. returns (
                                                response_sound message pending topology me now
                                                    vetted,
                                                refl,
                                                (by_node_id_sound topology message.responder_node_id
                                                    e).1,
                                                refl,
                                              ))))))))))))))

  -- When an initiator completes a handshake with a response, whatever it holds, the response is
  -- for the node of the initiator's own identity, which the plan has as its local node, and for
  -- the topology's generation, it carries the hash of the pending initiation, it has begun and
  -- is not over, its sender is listed and not revoked, the session is with that sender, and it
  -- expires with the response.
  pub complete_noise_ik_initiator-IsReply :
      (a : NodeIdentity) (pending : PendingNoiseInitiation) (message : NoiseResponse)
      (topology : TopologyBundleBody) (now : ℤ) {plan : AuthenticatedSessionPlan}
      → complete_noise_ik_initiator p aead canonical a pending message topology now ≡ ok plan
      → IsReply message pending topology (from_identity p a).node_id now
        × (plan.local_node_id ≡ (from_identity p a).node_id)
        × (plan.peer_node_id ≡ message.responder_node_id)
        × (plan.expires_at ≡ message.expires_at)
  complete_noise_ik_initiator-IsReply a pending message topology now h =
      Ensures-ok (CompletesReply a pending message topology now)
        (complete-Ensures a pending message topology now) h
