-- ===== src/Security/Envelope/Delivery.antt =====
-- One receive direction over time: what a receiver delivers of all the packets that reach it.
use gatherlink.Prelude.{
  ℕ, ◌≡◌, true, false, List, [], ◌∷◌, Result, ok, err, arith, Bool-cases, inl, inr, ◌∙◌, sym,
}
use gatherlink.Prelude.Int.{ℤ, pos, negsuc, eq_ℤ}
use gatherlink.Bytes.{Bytes}
use gatherlink.Security.Cipher.{Aead}
use gatherlink.Security.Replay.{ReplayWindow, accept}
use gatherlink.Security.Replay.History.{
  member, Tracks, counter_of, is_fresh, accept-Tracks, accept-eq-is_fresh,
}
use gatherlink.Security.Envelope.{
  DecryptedPacket, TransportKeys, decrypt_packet_without_replay, check_packet, finish_packet,
  decrypt_packet,
}

-- What a call that began with the history `seen` has done, by how it ended.
abbrev pub Delivers : List ℕ → Result DecryptedPacket × TransportKeys → Type 0
Delivers seen (ok d, keys) =
    (member (counter_of d.counter) seen ≡ false)
    × Tracks keys.replay_window (counter_of d.counter ∷ seen)
Delivers seen (err e, keys) = Tracks keys.replay_window seen

-- No counter comes twice, or is one of `seen`.
abbrev pub Distinct : List ℕ → List DecryptedPacket → Type 0
Distinct seen [] = Unit
Distinct seen (d ∷ ds) =
    (member (counter_of d.counter) seen ≡ false) × Distinct (counter_of d.counter ∷ seen) ds

fresh-not-member :
    (w : ReplayWindow) (c : ℤ) (seen : List ℕ)
    → is_fresh w seen c ≡ true
    → member (counter_of c) seen ≡ false
fresh-not-member w (negsuc n) seen h = absurd (cc)
fresh-not-member w (pos c) seen h = ground arith

module _ (aead : Aead) where
  check_packet-Delivers :
      (keys : TransportKeys) (d : DecryptedPacket) (seen : List ℕ)
      → Tracks keys.replay_window seen
      → Delivers seen (check_packet aead keys d)
  unfolding check_packet
  check_packet-Delivers keys d seen t =
      let decides = accept-eq-is_fresh keys.replay_window d.counter seen t in
      let next = accept-Tracks keys.replay_window d.counter seen t in
      elim (Bool-cases (eq_ℤ d.receiver_index keys.local_receiver_index)) [
        | inr other ↦ rw other t
        | inl same ↦ elim (Bool-cases (accept keys.replay_window d.counter).0) [
          | inl fresh ↦
              rw (same, fresh)
                (
                  fresh-not-member keys.replay_window d.counter seen (sym decides ∙ fresh),
                  rw fresh at next,
                )
          | inr stale ↦ rw (same, stale) (rw stale at next)
        ]
      ]

  -- When the window tracks the accepted counters, a packet that is delivered has a counter that
  -- was not among them and the new window tracks it as well; after an error the window tracks
  -- the same counters as before.
  pub decrypt_packet-Delivers :
      (keys : TransportKeys) (packet : Bytes) (seen : List ℕ)
      → Tracks keys.replay_window seen
      → Delivers seen (decrypt_packet aead keys packet)
  unfolding decrypt_packet
  decrypt_packet-Delivers keys packet seen t =
      finish (decrypt_packet_without_replay aead keys.receive_key packet)
    where
      finish : (r : Result DecryptedPacket) → Delivers seen (finish_packet aead keys r)
      finish (err e) = t
      finish (ok d) = check_packet-Delivers keys d seen t

  -- The results of `decrypt_packet` on one packet after another, the refused ones dropped.
  unfoldable pub receive_all : TransportKeys → List Bytes → List DecryptedPacket
  receive_all keys [] = []
  receive_all keys (packet ∷ packets) =
      let (r, keys') = decrypt_packet aead keys packet in
      let rest = receive_all keys' packets in elim r [ ok d ↦ d ∷ rest | err e ↦ rest ]

  -- When the replay window tracks the counters accepted so far, no list of packets, in any
  -- order and with any repetition, makes the receiver deliver a counter twice or deliver one
  -- that was accepted before.
  pub receive_all-Distinct :
      (keys : TransportKeys) (packets : List Bytes) (seen : List ℕ)
      → Tracks keys.replay_window seen
      → Distinct seen (receive_all keys packets)
  unfolding receive_all
  receive_all-Distinct keys [] seen t = tt
  receive_all-Distinct keys (packet ∷ packets) seen t =
      after (decrypt_packet aead keys packet) (decrypt_packet-Delivers keys packet seen t)
        (λ k s t'. receive_all-Distinct k packets s t')
    where
      after :
          (out : Result DecryptedPacket × TransportKeys)
          → Delivers seen out
          → ((k : TransportKeys) (s : List ℕ)
              → Tracks k.replay_window s
              → Distinct s (receive_all k packets))
          → Distinct seen (elim out.0 [
            | ok d ↦ d ∷ receive_all out.1 packets
            | err e ↦ receive_all out.1 packets
          ])
      after (ok d, k) (new, t') ih = (new, ih k (counter_of d.counter ∷ seen) t')
      after (err e, k) t' ih = ih k seen t'
