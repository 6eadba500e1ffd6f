-- ===== src/Security/Sessions/Derive.antt =====
-- The derivation of session keys in python/gatherlink/security/sessions.py.
pub mod Mirror
pub mod Plan
use gatherlink.Prelude.{
  ℕ, zero, suc, ◌+◌, ◌/◌, ◌%◌, Bool, true, false, not, ◌||◌, List, [], ◌∷◌, ◌++◌, Option, none,
  some, length, take, drop, ltb, eq_list, ◌==◌, if◌then◌else◌, Result, ok, err, value_error,
  unicode_error, raise_if, ◌>>=◌, ◌>>◌,
}
use gatherlink.Prelude.Int.{ℤ, pos, negsuc, ltb_ℤ, leb_ℤ, ◌+ℤ◌}
use gatherlink.Bytes.{Bytes}
use gatherlink.Text.{Text}
use gatherlink.Security.Identity.{
  Primitives, NodeIdentity, IdentityPublicRecord, x25519_shared_secret, from_identity, public_bytes,
}
use gatherlink.Security.Topology.{TopologyBundleBody, require_topology_member}
use gatherlink.Security.Sessions.{
  StaticSessionRole, initiator, responder, other_role, DirectionalSessionKeys,
  StaticTransportSecurityMaterial, new_security_material, AuthenticatedSessionPlan, seconds,
  default_rekey_after_packets, default_rekey_after_bytes,
}

-- b"GATHERLINK_STATIC_SESSION_V1"
abbrev pub static_session_transcript_domain : Bytes
static_session_transcript_domain =
    71 ∷ 65 ∷ 84 ∷ 72 ∷ 69 ∷ 82 ∷ 76 ∷ 73 ∷ 78 ∷ 75 ∷ 95 ∷ 83 ∷ 84 ∷ 65 ∷ 84 ∷ 73 ∷ 67 ∷ 95 ∷ 83
    ∷ 69 ∷ 83 ∷ 83 ∷ 73 ∷ 79 ∷ 78 ∷ 95 ∷ 86 ∷ 49 ∷ []

-- b"GATHERLINK_AUTH_SESSION_CONTEXT_V1"
abbrev pub authenticated_session_transcript_domain : Bytes
authenticated_session_transcript_domain =
    71 ∷ 65 ∷ 84 ∷ 72 ∷ 69 ∷ 82 ∷ 76 ∷ 73 ∷ 78 ∷ 75 ∷ 95 ∷ 65 ∷ 85 ∷ 84 ∷ 72 ∷ 95 ∷ 83 ∷ 69 ∷ 83
    ∷ 83 ∷ 73 ∷ 79 ∷ 78 ∷ 95 ∷ 67 ∷ 79 ∷ 78 ∷ 84 ∷ 69 ∷ 88 ∷ 84 ∷ 95 ∷ 86 ∷ 49 ∷ []

-- b"GATHERLINK_TRANSPORT_KEYS_V1"
abbrev pub transport_keys_info : Bytes
transport_keys_info =
    71 ∷ 65 ∷ 84 ∷ 72 ∷ 69 ∷ 82 ∷ 76 ∷ 73 ∷ 78 ∷ 75 ∷ 95 ∷ 84 ∷ 82 ∷ 65 ∷ 78 ∷ 83 ∷ 80 ∷ 79 ∷ 82
    ∷ 84 ∷ 95 ∷ 75 ∷ 69 ∷ 89 ∷ 83 ∷ 95 ∷ 86 ∷ 49 ∷ []

-- `text.encode("ascii")`
abbrev pub ascii_encode : Text → Result Bytes
ascii_encode [] = ok []
ascii_encode (c ∷ text) = do
  bytes ← ascii_encode text
  if ltb c 128 then ok (c ∷ bytes) else err unicode_error

-- The decimal digits of a number, whose fuel is above the number of its digits.
digits_on : ℕ → ℕ → Text
digits_on zero n = []
digits_on (suc fuel) n = elim (ltb n 10) [
  | true ↦ (48 + n) ∷ []
  | false ↦ digits_on fuel (n / 10) ++ ((48 + n % 10) ∷ [])
]

-- `str(n)`
unfoldable pub int_text : ℤ → Text
unfolding digits_on
int_text (pos n) = digits_on (suc n) n
int_text (negsuc n) = 45 ∷ digits_on (suc (suc n)) (suc n)

module _ (p : Primitives) where
  unfoldable pub derive_directional_session_keys : Bytes → Bytes → Result DirectionalSessionKeys
  derive_directional_session_keys shared_secret transcript_hash = do
    raise_if (not (length shared_secret == 32)) "shared_secret must be 32 bytes"
    let derived = p.hkdf transcript_hash transport_keys_info shared_secret
    ok (record {
      initiator_to_responder = take 32 derived;
      responder_to_initiator = drop 32 derived;
    })

  unfoldable pub static_session_transcript_hash :
      Bytes → Bytes → Bytes → Bytes → Bytes → Result Bytes
  static_session_transcript_hash initiator_node_id responder_node_id initiator_x25519_public
        responder_x25519_public context =
      do
        raise_if (not (length initiator_node_id == 32)) "initiator_node_id must be 32 bytes"
        raise_if (not (length responder_node_id == 32)) "responder_node_id must be 32 bytes"
        raise_if (not (length initiator_x25519_public == 32))
            "initiator_x25519_public must be 32 bytes"
        raise_if (not (length responder_x25519_public == 32))
            "responder_x25519_public must be 32 bytes"
        ok (
            p.sha256 (
              static_session_transcript_domain ++ initiator_node_id ++ responder_node_id
              ++ initiator_x25519_public ++ responder_x25519_public ++ context))

  -- The two node ids and the two public keys, the initiator's first: what the source's branches on
  -- `role` bind.
  unfoldable pub ordered_parties :
      StaticSessionRole → NodeIdentity → Bytes → Bytes → Result (Bytes × Bytes × Bytes × Bytes)
  ordered_parties initiator identity peer_node_id peer_public =
      ok (identity.node_id, peer_node_id, identity.x25519_public, peer_public)
  ordered_parties responder identity peer_node_id peer_public =
      ok (peer_node_id, identity.node_id, peer_public, identity.x25519_public)
  ordered_parties other_role identity peer_node_id peer_public =
      err (value_error "role must be initiator or responder")

  -- The send key and the receive key of a role.
  unfoldable pub directed : StaticSessionRole → DirectionalSessionKeys → Bytes × Bytes
  directed initiator keys = (keys.initiator_to_responder, keys.responder_to_initiator)
  directed responder keys = (keys.responder_to_initiator, keys.initiator_to_responder)
  directed other_role keys = (keys.responder_to_initiator, keys.initiator_to_responder)

  unfoldable pub derive_static_transport_security :
      NodeIdentity
      → IdentityPublicRecord
      → StaticSessionRole
      → ℤ
      → Bytes
      → Result StaticTransportSecurityMaterial
  unfolding derive_directional_session_keys static_session_transcript_hash ordered_parties directed
      x25519_shared_secret new_security_material
  derive_static_transport_security local_identity peer_identity role receiver_index context = do
    raise_if (ltb_ℤ receiver_index (pos 0) || leb_ℤ (pos 4294967296) receiver_index)
        "receiver_index must fit u32"
    (peer_node_id, _, peer_x25519_public) ← public_bytes p peer_identity
    raise_if (eq_list peer_node_id local_identity.node_id)
        "peer identity must not be the local identity"
    (initiator_id, responder_id, initiator_public, responder_public) ←
        ordered_parties role local_identity peer_node_id peer_x25519_public
    transcript_hash ←
        static_session_transcript_hash initiator_id responder_id initiator_public responder_public
          context
    shared_secret ← x25519_shared_secret p local_identity.x25519_private peer_x25519_public
    keys ← derive_directional_session_keys shared_secret transcript_hash
    let (send_key, receive_key) = directed role keys
    ok (new_security_material receiver_index send_key receive_key none none)

  unfoldable pub authenticated_session_context : TopologyBundleBody → Text → Text → Result Bytes
  unfolding int_text
  authenticated_session_context topology initiator_node_id responder_node_id = do
    generation ← ascii_encode (int_text topology.generation)
    issuer ← ascii_encode topology.issuer_node_id
    first ← ascii_encode initiator_node_id
    second ← ascii_encode responder_node_id
    ok (
        p.sha256
          (authenticated_session_transcript_domain ++ generation ++ issuer ++ first ++ second))

  -- The node ids in the transcript: the initiator's first.
  unfoldable pub ordered_ids : StaticSessionRole → Text → Text → Text × Text
  ordered_ids initiator mine peer = (mine, peer)
  ordered_ids responder mine peer = (peer, mine)
  ordered_ids other_role mine peer = (peer, mine)

  -- `now` is given: the default is the wall clock.
  unfoldable pub plan_authenticated_static_session :
      NodeIdentity
      → IdentityPublicRecord
      → TopologyBundleBody
      → StaticSessionRole
      → ℤ
      → ℤ
      → ℤ
      → Result AuthenticatedSessionPlan
  unfolding ordered_ids authenticated_session_context derive_static_transport_security
  plan_authenticated_static_session local_identity peer_identity topology role receiver_index now
        lifetime_seconds =
      do
        raise_if (leb_ℤ lifetime_seconds (pos 0)) "session lifetime must be positive"
        let local_public = from_identity p local_identity
        require_topology_member topology local_public
        require_topology_member topology peer_identity
        let (initiator_node_id, responder_node_id) =
            ordered_ids role local_public.node_id peer_identity.node_id
        context ← authenticated_session_context topology initiator_node_id responder_node_id
        security ←
            derive_static_transport_security local_identity peer_identity role receiver_index
              context
        ok (record {
          local_node_id = local_public.node_id;
          peer_node_id = peer_identity.node_id;
          topology_generation = topology.generation;
          receiver_index = receiver_index;
          role = role;
          created_at = now;
          expires_at = now +ℤ seconds lifetime_seconds;
          rekey_after_packets = default_rekey_after_packets;
          rekey_after_bytes = default_rekey_after_bytes;
          security = some security;
        })
