-- ===== src/Security/Identity.antt =====
-- The identities of python/gatherlink/security/keys.py and python/gatherlink/secrets/identity.py,
-- and what they use of the packages `cryptography` and `base64` and of `hashlib`, as an interface.
use gatherlink.Prelude.{ℕ, ◌≡◌, refl, not, length, ◌==◌, Result, ok, raise_if, ◌>>=◌, ◌>>◌}
use gatherlink.Bytes.{Bytes}
use gatherlink.Text.{Text}

-- The facts are those that the documentation of these functions gives. `x25519_public` is the public
-- key of a private key, and `exchange` is `private.exchange(public)` with the keys read from bytes.
pub record Primitives : Type 0 where
  pub sha256 : Bytes → Bytes
  -- salt, info, key material; 64 bytes come out
  pub hkdf : Bytes → Bytes → Bytes → Bytes
  pub x25519_public : Bytes → Bytes
  pub exchange : Bytes → Bytes → Result Bytes
  pub b64encode : Bytes → Text
  pub b64decode : Text → Result Bytes
  pub length-sha256 : (value : Bytes) → length (sha256 value) ≡ 32
  pub length-hkdf : (salt info secret : Bytes) → length (hkdf salt info secret) ≡ 64
  pub length-x25519_public : (private : Bytes) → length (x25519_public private) ≡ 32
  pub exchange_comm :
      (a b : Bytes)
      → length a ≡ 32
      → length b ≡ 32
      → exchange a (x25519_public b) ≡ exchange b (x25519_public a)
  pub b64decode-b64encode : (value : Bytes) → b64decode (b64encode value) ≡ ok value

pub record NodeIdentity : Type 0 where
  pub ed25519_private : Bytes
  pub ed25519_public : Bytes
  pub x25519_private : Bytes
  pub x25519_public : Bytes
  pub node_id : Bytes

pub record IdentityPublicRecord : Type 0 where
  pub schema_version : ℕ
  pub node_id : Text
  pub ed25519_public : Text
  pub x25519_public : Text

module _ (p : Primitives) where
  unfoldable pub x25519_shared_secret : Bytes → Bytes → Result Bytes
  x25519_shared_secret private_key peer_public_key = p.exchange private_key peer_public_key

  -- `IdentityPublicRecord.from_identity`
  unfoldable pub from_identity : NodeIdentity → IdentityPublicRecord
  from_identity identity = record {
    schema_version = 1;
    node_id = p.b64encode identity.node_id;
    ed25519_public = p.b64encode identity.ed25519_public;
    x25519_public = p.b64encode identity.x25519_public;
  }

  -- `IdentityPublicRecord.public_bytes`; the first message ends with the version in the source.
  unfoldable pub public_bytes : IdentityPublicRecord → Result (Bytes × Bytes × Bytes)
  public_bytes r = do
    raise_if (not (r.schema_version == 1)) "unsupported identity schema_version"
    node_id ← p.b64decode r.node_id
    ed25519_public ← p.b64decode r.ed25519_public
    x25519_public ← p.b64decode r.x25519_public
    raise_if (not (length node_id == 32)) "identity public record node_id must decode to 32 bytes"
    raise_if (not (length ed25519_public == 32))
        "identity public record ed25519_public must decode to 32 bytes"
    raise_if (not (length x25519_public == 32))
        "identity public record x25519_public must decode to 32 bytes"
    ok (node_id, ed25519_public, x25519_public)

  -- What `generate` and `from_private_keys` set up: keys of 32 bytes that belong together.
  pub record IsIdentity (identity : NodeIdentity) : Type 0 where
    pub private : length identity.x25519_private ≡ 32
    pub public : identity.x25519_public ≡ p.x25519_public identity.x25519_private
    pub ed : length identity.ed25519_public ≡ 32
    pub node : length identity.node_id ≡ 32

  pub public_bytes-from_identity :
      (identity : NodeIdentity)
      → IsIdentity identity
      → public_bytes (from_identity identity)
        ≡ ok (identity.node_id, identity.ed25519_public, identity.x25519_public)
  unfolding public_bytes from_identity
  public_bytes-from_identity identity v =
      let x = p.length-x25519_public identity.x25519_private in
      let x' : length identity.x25519_public ≡ 32 = cc (v.public, x) in
      rw
        (
          p.b64decode-b64encode identity.node_id,
          p.b64decode-b64encode identity.ed25519_public,
          p.b64decode-b64encode identity.x25519_public,
          v.node,
          v.ed,
          x',
        )
        refl
