-- ===== src/Security/Tests/Packets.antt =====
-- Runs of python/gatherlink/security/envelope.py and replay.py on samples.
use gatherlink.Prelude.{ℕ, ◌≡◌, refl, map, [], ◌∷◌, ◌++◌, none, some, ok}
use gatherlink.Prelude.Int.{pos}
use gatherlink.Bytes.{Bytes}
use gatherlink.Security.Replay.{ReplayWindow, new_window, accept}
use gatherlink.Security.Replay.History.{
  Tracks, is_fresh, accept-Tracks, accept-eq-is_fresh, new_window-Tracks,
}
use gatherlink.Security.Envelope.{
  TransportKeys, new_transport_keys, encrypt_frame_with_counter, encrypt_frame, decrypt_packet,
}
use gatherlink.Security.Envelope.Delivery.{
  Delivers, Distinct, decrypt_packet-Delivers, receive_all, receive_all-Distinct,
}
use gatherlink.Security.Envelope.Stream.{
  IsPaired, packet_of, decrypt_packet-encrypt_frame, send_all, receive_all-send_all,
}
use gatherlink.Security.Tests.{repeat, toy_aead}

abbrev sender : TransportKeys
unfolding new_transport_keys new_window
sender =
    new_transport_keys (pos 5) (repeat 32 7) (repeat 32 8) none none (pos 0) (new_window (pos 128))

abbrev receiver : TransportKeys
unfolding new_transport_keys new_window
receiver =
    new_transport_keys (pos 5) (repeat 32 8) (repeat 32 7) none none (pos 0) (new_window (pos 128))

receiver-Tracks : Tracks receiver.replay_window []
unfolding receiver new_window
receiver-Tracks = new_window-Tracks (pos 128)

paired : IsPaired sender receiver 0
unfolding new_transport_keys new_window
paired = record { key = refl; index = refl; counter = refl; ahead = tt }

-- The packet of a frame under a counter below 256.
abbrev sample_packet : ℕ → Bytes → Bytes
sample_packet counter frame =
    1 ∷ 0 ∷ 0 ∷ 0 ∷ 5 ∷ 0 ∷ 0 ∷ 0 ∷ 0 ∷ 0 ∷ 0 ∷ 0 ∷ counter ∷ (frame ++ repeat 16 0)

abbrev after_one : TransportKeys
after_one = record sender { next_send_counter = pos 1 }

sealed_one :
    encrypt_frame_with_counter toy_aead (pos 5) (repeat 32 7) (pos 0) (1 ∷ 2 ∷ [])
    ≡ ok (sample_packet 0 (1 ∷ 2 ∷ []))
unfolding encrypt_frame_with_counter gatherlink.Bytes.to_be
sealed_one = refl

sent_one : encrypt_frame toy_aead sender (1 ∷ 2 ∷ []) ≡ ok (sample_packet 0 (1 ∷ 2 ∷ []), after_one)
unfolding encrypt_frame new_transport_keys encrypt_frame_with_counter sender gatherlink.Bytes.to_be
sent_one = refl

sent_two :
    send_all toy_aead sender ((1 ∷ 2 ∷ []) ∷ (3 ∷ []) ∷ [])
    ≡ ok (sample_packet 0 (1 ∷ 2 ∷ []) ∷ sample_packet 1 (3 ∷ []) ∷ [])
unfolding send_all encrypt_frame new_transport_keys encrypt_frame_with_counter sender
    gatherlink.Bytes.to_be
sent_two = refl

receive_all-send_all_example :
    map
      (λ d. d.plaintext)
      (receive_all toy_aead receiver (sample_packet 0 (1 ∷ 2 ∷ []) ∷ sample_packet 1 (3 ∷ []) ∷ []))
    ≡ (1 ∷ 2 ∷ []) ∷ (3 ∷ []) ∷ []
receive_all-send_all_example =
    receive_all-send_all toy_aead sender receiver 0 ((1 ∷ 2 ∷ []) ∷ (3 ∷ []) ∷ []) paired sent_two

decrypt_packet-encrypt_frame_example :
    ((decrypt_packet toy_aead receiver (sample_packet 0 (1 ∷ 2 ∷ []))).0
      ≡ ok (packet_of receiver 0 (1 ∷ 2 ∷ [])))
    × IsPaired after_one (decrypt_packet toy_aead receiver (sample_packet 0 (1 ∷ 2 ∷ []))).1 1
decrypt_packet-encrypt_frame_example =
    decrypt_packet-encrypt_frame toy_aead sender receiver 0 (1 ∷ 2 ∷ [])
      (sample_packet 0 (1 ∷ 2 ∷ [])) after_one paired sent_one

decrypt_packet-Delivers_example :
    Delivers [] (decrypt_packet toy_aead receiver (sample_packet 0 (1 ∷ 2 ∷ [])))
decrypt_packet-Delivers_example =
    decrypt_packet-Delivers toy_aead receiver (sample_packet 0 (1 ∷ 2 ∷ [])) [] receiver-Tracks

-- The same packet three times.
receive_all-Distinct_example : Distinct [] (
    receive_all toy_aead receiver
      (sample_packet 4 (1 ∷ []) ∷ sample_packet 4 (1 ∷ []) ∷ sample_packet 4 (1 ∷ []) ∷ []))
receive_all-Distinct_example =
    receive_all-Distinct toy_aead receiver
      (sample_packet 4 (1 ∷ []) ∷ sample_packet 4 (1 ∷ []) ∷ sample_packet 4 (1 ∷ []) ∷ []) []
      receiver-Tracks

-- A window that has accepted the counter 9.
abbrev seen_nine : ReplayWindow
seen_nine = record { window_bits = 128; highest = some 9; bitmap = 1 }

seen_nine-Tracks : Tracks seen_nine (9 ∷ [])
unfolding accept new_window
seen_nine-Tracks = accept-Tracks (new_window (pos 128)) (pos 9) [] (new_window-Tracks (pos 128))

accept-eq-is_fresh_example : (accept seen_nine (pos 9)).0 ≡ is_fresh seen_nine (9 ∷ []) (pos 9)
accept-eq-is_fresh_example = accept-eq-is_fresh seen_nine (pos 9) (9 ∷ []) seen_nine-Tracks
