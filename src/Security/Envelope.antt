-- ===== src/Security/Envelope.antt =====
-- python/gatherlink/security/envelope.py: compact encrypted packets and the keys of one session.
pub mod RoundTrip
pub mod Delivery
pub mod Stream
use gatherlink.Prelude.{
  ℕ, ◌+◌, Bool, true, false, not, ◌||◌, [], ◌∷◌, ◌++◌, Option, none, some, length, take, drop,
  get_or, ltb, ◌==◌, if◌then◌else◌, Result, ok, err, value_error, raise_if, ◌>>=◌, ◌>>◌, ◌⊕◌,
}
use gatherlink.Prelude.Int.{ℤ, pos, ltb_ℤ, leb_ℤ, eq_ℤ, ◌+ℤ◌}
use gatherlink.Bytes.{
  Bytes, append_byte, append_u32, append_u64, to_bytes, read_u32, read_u64, read_be,
}
use gatherlink.Security.Replay.{ReplayWindow, accept}
use gatherlink.Security.Cipher.{Aead}

abbrev pub packet_type_encrypted_data_v1 : ℕ
packet_type_encrypted_data_v1 = 1

abbrev pub encrypted_data_header_len : ℕ
encrypted_data_header_len = 13

abbrev pub aead_tag_len : ℕ
aead_tag_len = 16

-- b"GATHERLINK_DATA_V1"
abbrev pub aead_domain : Bytes
aead_domain =
    71 ∷ 65 ∷ 84 ∷ 72 ∷ 69 ∷ 82 ∷ 76 ∷ 73 ∷ 78 ∷ 75 ∷ 95 ∷ 68 ∷ 65 ∷ 84 ∷ 65 ∷ 95 ∷ 86 ∷ 49 ∷ []

pub record DecryptedPacket : Type 0 where
  pub receiver_index : ℤ
  pub counter : ℤ
  pub plaintext : Bytes

-- After `__post_init__` both indexes are set.
pub record TransportKeys : Type 0 where
  pub receiver_index : ℤ
  pub send_key : Bytes
  pub receive_key : Bytes
  pub local_receiver_index : ℤ
  pub remote_receiver_index : ℤ
  pub next_send_counter : ℤ
  pub replay_window : ReplayWindow

-- `x if x is not None else default`
abbrev pub or_default : Option ℤ → ℤ → ℤ
or_default none default = default
or_default (some x) default = x

-- The constructor with `__post_init__`.
unfoldable pub new_transport_keys :
    ℤ → Bytes → Bytes → Option ℤ → Option ℤ → ℤ → ReplayWindow → TransportKeys
new_transport_keys receiver_index send_key receive_key local remote counter window = record {
  receiver_index = receiver_index;
  send_key = send_key;
  receive_key = receive_key;
  local_receiver_index = or_default local receiver_index;
  remote_receiver_index = or_default remote receiver_index;
  next_send_counter = counter;
  replay_window = window;
}

unfoldable pub validate_u32 : ℤ → Result (Unit {0})
validate_u32 value =
    raise_if (ltb_ℤ value (pos 0) || leb_ℤ (pos 4294967296) value) "receiver_index must fit u32"

unfoldable pub validate_u64 : ℤ → Result (Unit {0})
validate_u64 value =
    raise_if (ltb_ℤ value (pos 0) || leb_ℤ (pos 18446744073709551616) value) "counter must fit u64"

unfoldable pub validate_key : Bytes → Result (Unit {0})
validate_key key = raise_if (not (length key == 32)) "transport key must be 32 bytes"

unfoldable pub nonce_from_counter : ℤ → Result Bytes
unfolding to_bytes
nonce_from_counter counter = ok (0 ∷ 0 ∷ 0 ∷ 0 ∷ []) ⊕ to_bytes 8 counter

unfoldable pub packet_header : ℤ → ℤ → Result Bytes
unfolding append_byte append_u32 append_u64
packet_header receiver_index counter =
    append_byte (pos packet_type_encrypted_data_v1) ⊕ append_u32 receiver_index ⊕ append_u64 counter

module _ (aead : Aead) where
  open aead use {encrypt, decrypt}

  unfoldable pub encrypt_frame_with_counter : ℤ → Bytes → ℤ → Bytes → Result Bytes
  unfolding validate_u32 validate_u64 validate_key nonce_from_counter packet_header
  encrypt_frame_with_counter receiver_index key counter plaintext_frame = do
    validate_u32 receiver_index
    validate_u64 counter
    validate_key key
    header ← packet_header receiver_index counter
    nonce ← nonce_from_counter counter
    ok (header ++ encrypt key nonce plaintext_frame (aead_domain ++ header))

  -- `InvalidTag` is `none`, which becomes the ValueError.
  authenticated : ℤ → ℤ → Option Bytes → Result DecryptedPacket
  authenticated receiver_index counter none = err (value_error "packet must be silently dropped")
  authenticated receiver_index counter (some plaintext) =
      ok (record { receiver_index = receiver_index; counter = counter; plaintext = plaintext })

  unfoldable pub decrypt_packet_without_replay : Bytes → Bytes → Result DecryptedPacket
  unfolding validate_key nonce_from_counter authenticated
  decrypt_packet_without_replay key packet = do
    validate_key key
    raise_if (ltb (length packet) (encrypted_data_header_len + aead_tag_len))
        "packet must be silently dropped"
    raise_if (not (get_or packet 0 0 == packet_type_encrypted_data_v1))
        "packet must be silently dropped"
    let receiver_index = pos (read_u32 packet 1)
    let counter = pos (read_u64 packet 5)
    nonce ← nonce_from_counter counter
    authenticated receiver_index counter (
        decrypt key nonce (drop encrypted_data_header_len packet)
          (aead_domain ++ take encrypted_data_header_len packet))

  -- `TransportKeys.encrypt_frame`: the counter moves only if no exception was raised.
  unfoldable pub encrypt_frame : TransportKeys → Bytes → Result (Bytes × TransportKeys)
  unfolding ◌+ℤ◌
  encrypt_frame keys plaintext_frame = do
    packet ←
        encrypt_frame_with_counter keys.remote_receiver_index keys.send_key keys.next_send_counter
          plaintext_frame
    ok (packet, record keys { next_send_counter = keys.next_send_counter +ℤ pos 1 })

  -- What follows the decryption: the index, then the replay window, whose state comes back.
  unfoldable pub check_packet :
      TransportKeys → DecryptedPacket → Result DecryptedPacket × TransportKeys
  check_packet keys decrypted =
      if not (eq_ℤ decrypted.receiver_index keys.local_receiver_index)
      then (err (value_error "receiver index mismatch"), keys)
      else (let (fresh, window) = accept keys.replay_window decrypted.counter in
          (
            if fresh then ok decrypted else err (value_error "replayed transport counter"),
            record keys { replay_window = window },
          ))

  finish_packet : TransportKeys → Result DecryptedPacket → Result DecryptedPacket × TransportKeys
  finish_packet keys (err e) = (err e, keys)
  finish_packet keys (ok decrypted) = check_packet keys decrypted

  -- `TransportKeys.decrypt_packet`
  unfoldable pub decrypt_packet : TransportKeys → Bytes → Result DecryptedPacket × TransportKeys
  unfolding finish_packet check_packet
  decrypt_packet keys packet =
      finish_packet keys (decrypt_packet_without_replay keys.receive_key packet)
