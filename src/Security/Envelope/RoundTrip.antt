-- ===== src/Security/Envelope/RoundTrip.antt =====
-- A packet is decrypted to what it was made of.
use gatherlink.Prelude.{
  ℕ, ◌+◌, ◌<◌, ◌^◌, ◌≡◌, refl, ◌∷◌, ◌++◌, some, length, take, drop, get_or, ok, arith,
}
use gatherlink.Prelude.Int.{ℤ, pos, pos_part}
use gatherlink.Bytes.{Bytes, to_be, from_be, read_u32, read_u64}
use gatherlink.Bytes.Laws.{from_be-to_be}
use gatherlink.Security.Cipher.{Aead}
use gatherlink.Security.Envelope.{
  aead_domain, encrypt_frame_with_counter, decrypt_packet_without_replay, nonce_from_counter,
}

header_bytes : ℕ → ℕ → Bytes
header_bytes index counter = 1 ∷ (to_be 4 index ++ to_be 8 counter)

nonce_bytes : ℕ → Bytes
nonce_bytes counter = 0 ∷ 0 ∷ 0 ∷ 0 ∷ to_be 8 counter

-- What the checks of the encryption leave.
record Fits (index counter : ℤ) (key : Bytes) : Type 0 where
  index_range : pos (from_be (to_be 4 (pos_part index))) ≡ index
  counter_read : from_be (to_be 8 (pos_part counter)) ≡ pos_part counter
  counter_range : pos_part counter < 256 ^ 8
  counter_sign : pos (pos_part counter) ≡ counter
  key_length : length key ≡ 32

-- The pieces of a packet that the decryption reads, whatever follows the header.
packet_pieces :
    (index counter : ℕ) (rest : Bytes)
    → (read_u32 (header_bytes index counter ++ rest) 1 ≡ from_be (to_be 4 index))
      × (read_u64 (header_bytes index counter ++ rest) 5 ≡ from_be (to_be 8 counter))
      × (take 13 (header_bytes index counter ++ rest) ≡ header_bytes index counter)
      × (drop 13 (header_bytes index counter ++ rest) ≡ rest)
      × (get_or (header_bytes index counter ++ rest) 0 0 ≡ 1)
      × (length (header_bytes index counter ++ rest) ≡ 13 + length rest)
unfolding header_bytes to_be read_u32 read_u64
packet_pieces index counter rest = (refl, refl, refl, refl, refl, omega arith)

nonce-eq :
    (counter : ℕ) → counter < 256 ^ 8 → nonce_from_counter (pos counter) ≡ ok (nonce_bytes counter)
unfolding nonce_from_counter nonce_bytes
nonce-eq counter c = ground arith

module _ (aead : Aead) where
  open aead use {encrypt, decrypt, decrypt-encrypt, length-encrypt}

  sealed : ℕ → ℕ → Bytes → Bytes → Bytes
  sealed index counter key plaintext =
      encrypt key (nonce_bytes counter) plaintext (aead_domain ++ header_bytes index counter)

  encrypted-bytes :
      (index : ℤ) (key : Bytes) (counter : ℤ) (plaintext : Bytes) {packet : Bytes}
      → encrypt_frame_with_counter aead index key counter plaintext ≡ ok packet
      → packet
        ≡ header_bytes (pos_part index) (pos_part counter)
          ++ sealed (pos_part index) (pos_part counter) key plaintext
  unfolding encrypt_frame_with_counter sealed header_bytes nonce_bytes
  encrypted-bytes index key counter plaintext h = ground arith

  encrypted-Fits :
      (index : ℤ) (key : Bytes) (counter : ℤ) (plaintext : Bytes) {packet : Bytes}
      → encrypt_frame_with_counter aead index key counter plaintext ≡ ok packet
      → Fits index counter key
  unfolding encrypt_frame_with_counter
  encrypted-Fits index key counter plaintext h =
      let i = from_be-to_be 4 (pos_part index) in
      let c = from_be-to_be 8 (pos_part counter) in
      record {
        index_range = ground (arith, i);
        counter_read = ground (arith, c);
        counter_range = ground arith;
        counter_sign = ground arith;
        key_length = ground arith;
      }

  decrypt-sealed :
      (index counter : ℕ) (key plaintext : Bytes)
      → from_be (to_be 8 counter) ≡ counter
      → counter < 256 ^ 8
      → length key ≡ 32
      → decrypt_packet_without_replay aead key
          (header_bytes index counter ++ sealed index counter key plaintext)
        ≡ ok (record {
          receiver_index = pos (from_be (to_be 4 index));
          counter = pos counter;
          plaintext = plaintext;
        })
  unfolding decrypt_packet_without_replay
  decrypt-sealed index counter key plaintext r c k =
      let body = sealed index counter key plaintext in
      let (ri, rc, tk, dp, version, len) = packet_pieces index counter body in
      let opened : decrypt key (nonce_bytes counter) body
            (aead_domain ++ header_bytes index counter)
          ≡ some plaintext =
        unfold sealed in decrypt-encrypt key (nonce_bytes counter) plaintext _ in
      let tag : length body ≡ length plaintext + 16 =
        unfold sealed in length-encrypt key (nonce_bytes counter) plaintext _ in
      rw (ri, rc, r, tk, dp, version, len, nonce-eq counter c, opened) (ground arith)

  -- When a frame is encrypted for an index, a key and a counter, decrypting the packet with the
  -- key gives back the index, the counter and the frame.
  pub decrypt-encrypt_frame :
      (index : ℤ) (key : Bytes) (counter : ℤ) (plaintext : Bytes) {packet : Bytes}
      → encrypt_frame_with_counter aead index key counter plaintext ≡ ok packet
      → decrypt_packet_without_replay aead key packet
        ≡ ok (record { receiver_index = index; counter = counter; plaintext = plaintext })
  decrypt-encrypt_frame index key counter plaintext h =
      let f = encrypted-Fits index key counter plaintext h in
      rw (encrypted-bytes index key counter plaintext h) (
        rw (
          decrypt-sealed (pos_part index) (pos_part counter) key plaintext f.counter_read
              f.counter_range f.key_length,
          f.index_range,
          f.counter_sign,
        ))
