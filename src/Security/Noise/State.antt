-- ===== src/Security/Noise/State.antt =====
-- `_NoiseState` of python/gatherlink/security/noise.py: the chaining key and the transcript hash.
use gatherlink.Prelude.{
  ◌≡◌, refl, [], ◌∷◌, ◌++◌, Option, none, some, take, drop, Result, ok, err, value_error, ◌>>=◌,
}
use gatherlink.Prelude.Int.{ℤ}
use gatherlink.Bytes.{Bytes}
use gatherlink.Text.{Text}
use gatherlink.Security.Cipher.{Aead}
use gatherlink.Security.Identity.{Primitives}
use gatherlink.Security.Sessions.Derive.{int_text, ascii_encode}

-- b"Noise_IK_25519_ChaChaPoly_SHA256_GatherlinkV1"
abbrev pub noise_ik_protocol_name : Bytes
noise_ik_protocol_name =
    78 ∷ 111 ∷ 105 ∷ 115 ∷ 101 ∷ 95 ∷ 73 ∷ 75 ∷ 95 ∷ 50 ∷ 53 ∷ 53 ∷ 49 ∷ 57 ∷ 95 ∷ 67 ∷ 104 ∷ 97
    ∷ 67 ∷ 104 ∷ 97 ∷ 80 ∷ 111 ∷ 108 ∷ 121 ∷ 95 ∷ 83 ∷ 72 ∷ 65 ∷ 50 ∷ 53 ∷ 54 ∷ 95 ∷ 71 ∷ 97 ∷ 116
    ∷ 104 ∷ 101 ∷ 114 ∷ 108 ∷ 105 ∷ 110 ∷ 107 ∷ 86 ∷ 49 ∷ []

-- b"GATHERLINK_NOISE_IK_TRANSPORT_KEYS_V1"
abbrev pub noise_session_key_info : Bytes
noise_session_key_info =
    71 ∷ 65 ∷ 84 ∷ 72 ∷ 69 ∷ 82 ∷ 76 ∷ 73 ∷ 78 ∷ 75 ∷ 95 ∷ 78 ∷ 79 ∷ 73 ∷ 83 ∷ 69 ∷ 95 ∷ 73 ∷ 75
    ∷ 95 ∷ 84 ∷ 82 ∷ 65 ∷ 78 ∷ 83 ∷ 80 ∷ 79 ∷ 82 ∷ 84 ∷ 95 ∷ 75 ∷ 69 ∷ 89 ∷ 83 ∷ 95 ∷ 86 ∷ 49 ∷ []

-- b"GATHERLINK_NOISE_IK_PROLOGUE_V1"
abbrev pub noise_prologue_domain : Bytes
noise_prologue_domain =
    71 ∷ 65 ∷ 84 ∷ 72 ∷ 69 ∷ 82 ∷ 76 ∷ 73 ∷ 78 ∷ 75 ∷ 95 ∷ 78 ∷ 79 ∷ 73 ∷ 83 ∷ 69 ∷ 95 ∷ 73 ∷ 75
    ∷ 95 ∷ 80 ∷ 82 ∷ 79 ∷ 76 ∷ 79 ∷ 71 ∷ 85 ∷ 69 ∷ 95 ∷ 86 ∷ 49 ∷ []

-- b"noise-mix-key"
abbrev pub mix_key_info : Bytes
mix_key_info = 110 ∷ 111 ∷ 105 ∷ 115 ∷ 101 ∷ 45 ∷ 109 ∷ 105 ∷ 120 ∷ 45 ∷ 107 ∷ 101 ∷ 121 ∷ []

-- Twelve zeros.
abbrev pub noise_nonce_zero : Bytes
noise_nonce_zero = 0 ∷ 0 ∷ 0 ∷ 0 ∷ 0 ∷ 0 ∷ 0 ∷ 0 ∷ 0 ∷ 0 ∷ 0 ∷ 0 ∷ []

pub record NoiseState : Type 0 where
  pub ck : Bytes
  pub h : Bytes

module _ (p : Primitives) (aead : Aead) where
  unfoldable pub mix_hash : NoiseState → Bytes → NoiseState
  mix_hash s value = record s { h = p.sha256 (s.h ++ value) }

  -- The output key, and the new state.
  unfoldable pub mix_key : NoiseState → Bytes → Bytes × NoiseState
  mix_key s input_key_material =
      let output = p.hkdf s.ck mix_key_info input_key_material in
      (drop 32 output, record s { ck = take 32 output })

  unfoldable pub encrypt_and_hash : NoiseState → Bytes → Bytes → Bytes × NoiseState
  unfolding mix_hash
  encrypt_and_hash s key plaintext =
      let ciphertext = aead.encrypt key noise_nonce_zero plaintext s.h in
      (ciphertext, mix_hash s ciphertext)

  -- Any failure of the decryption becomes the ValueError.
  opened_text : NoiseState → Bytes → Option Bytes → Result (Bytes × NoiseState)
  opened_text s ciphertext none = err (value_error "packet must be silently dropped")
  opened_text s ciphertext (some plaintext) = ok (plaintext, mix_hash s ciphertext)

  unfoldable pub decrypt_and_hash : NoiseState → Bytes → Bytes → Result (Bytes × NoiseState)
  unfolding opened_text mix_hash
  decrypt_and_hash s key ciphertext =
      opened_text s ciphertext (aead.decrypt key noise_nonce_zero ciphertext s.h)

  -- `_NoiseState.for_pair`: the generation and issuer of the topology, and the two node ids.
  unfoldable pub for_pair : ℤ → Text → Text → Text → Result NoiseState
  unfolding mix_hash
  for_pair generation issuer initiator_node_id responder_node_id = do
    let h = p.sha256 noise_ik_protocol_name
    generation_text ← ascii_encode (int_text generation)
    issuer_text ← ascii_encode issuer
    first ← ascii_encode initiator_node_id
    second ← ascii_encode responder_node_id
    ok (
        mix_hash (record { ck = h; h = h })
          (noise_prologue_domain ++ generation_text ++ issuer_text ++ first ++ second))

  -- `_derive_transport_keys`
  unfoldable pub derive_transport_keys : NoiseState → Bytes × Bytes
  derive_transport_keys s =
      let material = p.hkdf s.ck (noise_session_key_info ++ s.h) [] in
      (take 32 material, drop 32 material)

  -- The receiver's state follows the sender's, and the text comes back.
  pub decrypt_and_hash-encrypt_and_hash :
      (s : NoiseState) (key plaintext : Bytes)
      → decrypt_and_hash s key (encrypt_and_hash s key plaintext).0
        ≡ ok (plaintext, (encrypt_and_hash s key plaintext).1)
  unfolding decrypt_and_hash encrypt_and_hash opened_text
  decrypt_and_hash-encrypt_and_hash s key plaintext =
      rw (aead.decrypt-encrypt key noise_nonce_zero plaintext s.h) refl
