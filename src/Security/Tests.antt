-- ===== src/Security/Tests.antt =====
-- Concrete functions in place of the packages that python/gatherlink/security calls, for the runs on
-- samples in the child modules. Nothing else uses them.
mod Packets
mod Sessions
mod Relays
mod Evaluations
mod Samples
mod Noise
mod Rekeying
use gatherlink.Prelude.{
  ℕ, zero, suc, ◌+◌, ◌-◌, ◌≡◌, refl, Bool, false, List, [], ◌∷◌, ◌++◌, Option, none, some, Result,
  ok, length, take, length-append, take-append_length, ltb, if◌then◌else◌, arith, Bool-cases, inl,
  inr,
}
use gatherlink.Bytes.{Bytes}
use gatherlink.Security.Cipher.{Aead}
use gatherlink.Security.Identity.{Primitives}

abbrev pub repeat : ℕ → ℕ → Bytes
repeat zero b = []
repeat (suc n) b = b ∷ repeat n b

-- The tag of sixteen zeros.
abbrev pub tag : Bytes
tag = repeat 16 0

abbrev pub toy_decrypt : Bytes → Option Bytes
toy_decrypt cipher =
    if ltb (length cipher) 16 then none else some (take (length cipher - 16) cipher)

pub toy_decrypt-append : (plaintext : Bytes) → toy_decrypt (plaintext ++ tag) ≡ some plaintext
toy_decrypt-append plaintext =
    let size : length (plaintext ++ tag) ≡ length plaintext + 16 = length-append plaintext tag in
    let short : ltb (length plaintext + 16) 16 ≡ false = ground arith in
    let less : length plaintext + 16 - 16 ≡ length plaintext = omega arith in
    rw (size, short, less, take-append_length plaintext tag) refl

abbrev pub toy_aead : Aead
toy_aead = record {
  encrypt = λ key nonce plaintext aad. plaintext ++ tag;
  decrypt = λ key nonce cipher aad. toy_decrypt cipher;
  decrypt-encrypt = λ key nonce plaintext aad. toy_decrypt-append plaintext;
  length-encrypt = λ key nonce plaintext aad. length-append plaintext tag;
}

abbrev pub toy_primitives : Primitives
toy_primitives = record {
  sha256 = λ value. repeat 32 1;
  hkdf = λ salt info secret. repeat 32 2 ++ repeat 32 3;
  x25519_public = λ private. repeat 32 4;
  exchange = λ private public. ok (repeat 32 5);
  b64encode = λ value. value;
  b64decode = λ text. ok text;
  length-sha256 = λ value. refl;
  length-hkdf = λ salt info secret. refl;
  length-x25519_public = λ private. refl;
  exchange_comm = λ a b la lb. refl;
  b64decode-b64encode = λ value. refl;
}
