-- ===== src/Security/Cipher.antt =====
-- ChaCha20-Poly1305 of the package `cryptography`, which the envelope calls: an interface with the
-- two documented facts that the envelope relies on.
use gatherlink.Prelude.{◌+◌, ◌≡◌, Option, some, length}
use gatherlink.Bytes.{Bytes}

pub record Aead : Type 0 where
  -- key, nonce, data, associated data
  pub encrypt : Bytes → Bytes → Bytes → Bytes → Bytes
  -- `none` stands for the exception InvalidTag.
  pub decrypt : Bytes → Bytes → Bytes → Bytes → Option Bytes
  pub decrypt-encrypt :
      (key nonce plaintext aad : Bytes)
      → decrypt key nonce (encrypt key nonce plaintext aad) aad ≡ some plaintext
  pub length-encrypt :
      (key nonce plaintext aad : Bytes)
      → length (encrypt key nonce plaintext aad) ≡ length plaintext + 16
