-- ===== src/Security/Envelope/Stream.antt =====
-- A sender and a receiver that share a direction: what is sent in order is delivered in order.
use gatherlink.Prelude.{
  ℕ, ◌+◌, ◌<◌, ◌^◌, ◌≡◌, refl, true, Option, none, some, List, [], ◌∷◌, Result, ok, err, arith, map,
  >>=-eq-ok, ap, ◌>>=◌,
}
use gatherlink.Prelude.Int.{ℤ, pos, eq_ℤ_iff, ◌+ℤ◌}
use gatherlink.Bytes.{Bytes}
use gatherlink.Security.Cipher.{Aead}
use gatherlink.Security.Replay.{ReplayWindow, accept, accept_fresh, accept_after}
use gatherlink.Security.Envelope.{
  DecryptedPacket, TransportKeys, encrypt_frame_with_counter, encrypt_frame, check_packet,
  decrypt_packet,
}
use gatherlink.Security.Envelope.RoundTrip.{decrypt-encrypt_frame}
use gatherlink.Security.Envelope.Delivery.{receive_all}

-- The window has accepted no counter from `c` on.
abbrev IsAhead : Option ℕ → ℕ → Type 0
IsAhead none c = Unit
IsAhead (some highest) c = highest < c

-- The two ends of one direction.
pub record IsPaired (sender receiver : TransportKeys) (next : ℕ) : Type 0 where
  pub key : sender.send_key ≡ receiver.receive_key
  pub index : sender.remote_receiver_index ≡ receiver.local_receiver_index
  pub counter : sender.next_send_counter ≡ pos next
  pub ahead : IsAhead receiver.replay_window.highest next

accept_fresh-ahead :
    (w : ReplayWindow) (o : Option ℕ) (c : ℕ)
    → IsAhead o c
    → ((accept_fresh w o c).0 ≡ true) × ((accept_fresh w o c).1.highest ≡ some c)
unfolding accept_fresh accept_after
accept_fresh-ahead w none c a = (refl, refl)
accept_fresh-ahead w (some h) c a = (ground arith, ground arith)

accept-ahead :
    (w : ReplayWindow) (c : ℕ)
    → IsAhead w.highest c
    → c < 2 ^ 64
    → ((accept w (pos c)).0 ≡ true) × ((accept w (pos c)).1.highest ≡ some c)
unfolding accept
accept-ahead w c a l = ground (arith, accept_fresh-ahead w w.highest c a)

-- What the receiver hands on for a frame that was sent under a counter.
abbrev pub packet_of : TransportKeys → ℕ → Bytes → DecryptedPacket
packet_of r next plaintext = record {
  receiver_index = r.local_receiver_index;
  counter = pos next;
  plaintext = plaintext;
}

module _ (aead : Aead) where
  encrypted_counter-lt :
      (index : ℤ) (key : Bytes) (c : ℕ) (plaintext : Bytes) {packet : Bytes}
      → encrypt_frame_with_counter aead index key (pos c) plaintext ≡ ok packet
      → c < 2 ^ 64
  unfolding encrypt_frame_with_counter
  encrypted_counter-lt index key c plaintext h = ground arith

  check_packet-ahead :
      (r : TransportKeys) (next : ℕ) (plaintext : Bytes)
      → IsAhead r.replay_window.highest next
      → next < 2 ^ 64
      → check_packet aead r (packet_of r next plaintext) ≡ (
        ok (packet_of r next plaintext),
        record r { replay_window = (accept r.replay_window (pos next)).1 },
      )
  unfolding check_packet
  check_packet-ahead r next plaintext a l =
      let same = (eq_ℤ_iff r.local_receiver_index r.local_receiver_index).1 refl in
      rw (same, (accept-ahead r.replay_window next a l).0)

  -- What `encrypt_frame` has done when it returns.
  encrypt_frame-parts :
      (s : TransportKeys) (plaintext packet : Bytes) (s' : TransportKeys)
      → encrypt_frame aead s plaintext ≡ ok (packet, s')
      → (encrypt_frame_with_counter aead s.remote_receiver_index s.send_key s.next_send_counter
            plaintext
          ≡ ok packet)
        × (s' ≡ record s { next_send_counter = s.next_send_counter +ℤ pos 1 })
  unfolding encrypt_frame
  encrypt_frame-parts s plaintext packet s' h =
      let (pk, e, h') =
        >>=-eq-ok
          (encrypt_frame_with_counter aead s.remote_receiver_index s.send_key s.next_send_counter
            plaintext)
          _ h in
      (cc (e, h'), cc h')

  -- When a sender and a receiver are paired and the sender encrypts a frame, the receiver
  -- delivers it under the sender's counter, and the two are paired again at the next counter.
  pub decrypt_packet-encrypt_frame :
      (s r : TransportKeys) (next : ℕ) (plaintext packet : Bytes) (s' : TransportKeys)
      → IsPaired s r next
      → encrypt_frame aead s plaintext ≡ ok (packet, s')
      → ((decrypt_packet aead r packet).0 ≡ ok (packet_of r next plaintext))
        × IsPaired s' (decrypt_packet aead r packet).1 (next + 1)
  unfolding decrypt_packet
  decrypt_packet-encrypt_frame s r next plaintext packet s' p h =
      let (e, es) = encrypt_frame-parts s plaintext packet s' h in
      let e' : encrypt_frame_with_counter aead r.local_receiver_index r.receive_key (pos next)
            plaintext
          ≡ ok packet =
        cc (e, p.key, p.index, p.counter) in
      let opened =
        decrypt-encrypt_frame aead r.local_receiver_index r.receive_key (pos next) plaintext e' in
      let l = encrypted_counter-lt r.local_receiver_index r.receive_key next plaintext e' in
      let step = check_packet-ahead r next plaintext p.ahead l in
      let top = (accept-ahead r.replay_window next p.ahead l).1 in
      rw (opened, step, es)
        (
          refl,
          record {
            key = p.key;
            index = p.index;
            counter = rw p.counter (unfold ◌+ℤ◌ in ground arith);
            ahead = rw top (omega arith);
          },
        )

  -- `encrypt_frame` on one frame after another.
  unfoldable pub send_all : TransportKeys → List Bytes → Result (List Bytes)
  send_all keys [] = ok []
  send_all keys (plaintext ∷ plaintexts) = do
    (packet, keys') ← encrypt_frame aead keys plaintext
    packets ← send_all keys' plaintexts
    ok (packet ∷ packets)

  receive_all-ok :
      (k : TransportKeys) (packet : Bytes) (packets : List Bytes) {d : DecryptedPacket}
      → (decrypt_packet aead k packet).0 ≡ ok d
      → receive_all aead k (packet ∷ packets)
        ≡ d ∷ receive_all aead (decrypt_packet aead k packet).1 packets
  unfolding receive_all
  receive_all-ok k packet packets {d} h = step (decrypt_packet aead k packet) h
    where
      step :
          (out : Result DecryptedPacket × TransportKeys)
          → out.0 ≡ ok d
          → (elim out.0 [
            | ok e ↦ e ∷ receive_all aead out.1 packets
            | err e ↦ receive_all aead out.1 packets
          ])
            ≡ d ∷ receive_all aead out.1 packets
      step (ok e, k') h' = let same : e ≡ d = cc h' in rw same refl
      step (err e, k') h' = absurd (cc h')

  -- When a sender and a receiver share a key, an index and a counter that the receiver has not
  -- reached, and the sender encrypts some frames one after another, a receiver that gets the
  -- packets in that order delivers exactly those frames.
  pub receive_all-send_all :
      (s r : TransportKeys) (next : ℕ) (plaintexts : List Bytes) {packets : List Bytes}
      → IsPaired s r next
      → send_all s plaintexts ≡ ok packets
      → map (λ d. d.plaintext) (receive_all aead r packets) ≡ plaintexts
  unfolding send_all receive_all
  receive_all-send_all s r next [] {packets} p h = let e : packets ≡ [] = cc in rw e
  receive_all-send_all s r next (plaintext ∷ plaintexts) {packets} p h =
      let (sent, e, h1) = >>=-eq-ok (encrypt_frame aead s plaintext) _ h in
      let (rest, e', h2) = >>=-eq-ok (send_all sent.1 plaintexts) _ h1 in
      let same : packets ≡ sent.0 ∷ rest = cc h2 in
      let (opened, p') = decrypt_packet-encrypt_frame s r next plaintext sent.0 sent.1 p e in
      let ih =
        receive_all-send_all sent.1 (decrypt_packet aead r sent.0).1 (next + 1) plaintexts p' e' in
      rw (same, receive_all-ok r sent.0 rest opened) (ap (λ (l : List Bytes). plaintext ∷ l) ih)
