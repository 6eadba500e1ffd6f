-- ===== src/Protocol/RoundTrip/Carries.antt =====
-- The decoder's loop against the encoder's: the messages that a write leaves take the decoder from
-- one frame to another.
use gatherlink.Prelude.{
  ℕ, suc, ◌+◌, ◌<◌, ◌≡◌, ◌∙◌, List, [], ◌∷◌, ◌++◌, append_assoc, Option, some, Result, ok, ◌⊕◌,
  ⊕-eq-ok, length, length-append, take-append_length, drop-append_length, All, Dict, insert,
  insert_all, HasDistinctKeys, arith, ap, append-nil,
}
use mathlib.Core.Path.{subst}
use gatherlink.Prelude.Int.{ℤ}
use gatherlink.Prelude.Dicts.Fresh.{insert_all_distinct}
use gatherlink.Bytes.{Bytes, to_be, read_u16}
use gatherlink.Bytes.Laws.{from_be-to_be}
use gatherlink.Protocol.Frame.{ControlFrame}
use gatherlink.Protocol.Encode.Names.{write_each}
use gatherlink.Protocol.Decode.{apply_message, next_message, decode_messages}
use gatherlink.Protocol.RoundTrip.Sends.{Sends}

pub record Carries (r : Result Bytes) (count : ℕ) (g g' : ControlFrame) : Type 0 where
  pub at :
      (bs rest : Bytes) (n : ℕ)
      → r ≡ ok bs
      → decode_messages (count + n) (bs ++ rest) g ≡ decode_messages n rest g'

next_message-append :
    (t : ℕ) (v rest : Bytes)
    → length v < 65536
    → next_message (t ∷ (to_be 2 (length v) ++ (v ++ rest))) ≡ some (t, v, rest)
unfolding next_message
next_message-append t v rest h =
    let e : read_u16 (t ∷ (to_be 2 (length v) ++ (v ++ rest))) 1 ≡ length v =
      unfold read_u16 to_be in from_be-to_be 2 (length v) h in
    rw e (
      unfold to_be in
      rw (take-append_length, drop-append_length) (ground (arith, length-append v rest)))

pub decode_messages-suc :
    (n t : ℕ) (v bs rest : Bytes) (g g' : ControlFrame)
    → next_message bs ≡ some (t, v, rest)
    → apply_message g t v ≡ some g'
    → decode_messages (suc n) bs g ≡ decode_messages n rest g'
unfolding decode_messages
decode_messages-suc n t v bs rest g g' e a = rw (e, decode_messages) (rw (a, decode_messages))

pub Carries-nothing : (g : ControlFrame) → Carries (ok []) 0 g g
Carries-nothing g = record {
  at = λ bs rest n h.
      let e : bs ≡ [] = cc in rw e (ap (λ k. decode_messages k rest g) (omega arith));
}

pub recount :
    {r : Result Bytes} {c d : ℕ} {g g' : ControlFrame} → c ≡ d → Carries r c g g' → Carries r d g g'
recount {r} {c} {d} {g} {g'} e a = subst (λ k. Carries r k g g') e a

infixr 55 ◌next◌
pub ◌next◌ :
    {r s : Result Bytes} {c d : ℕ} {g g' g'' : ControlFrame}
    → Carries r c g g'
    → Carries s d g' g''
    → Carries (r ⊕ s) (c + d) g g''
◌next◌ {r} {s} {c} {d} {g} a b = record {
  at = λ bs rest n h.
      let (x, y, hx, hy, e) = ⊕-eq-ok r s h in
      let regroup : c + d + n ≡ c + (d + n) = omega arith in
      rw (e, regroup, append_assoc) (a.at x (y ++ rest) (d + n) hx ∙ b.at y rest n hy);
}

pub Carries-one :
    {A : Type 0} (t : ℕ) (decode : Bytes → Option A) (x : A) (r : Result Bytes)
    (g g' : ControlFrame)
    → ((bs : Bytes) → r ≡ ok bs → Sends t decode x bs)
    → ((v : Bytes) → decode v ≡ some x → apply_message g t v ≡ some g')
    → Carries r 1 g g'
Carries-one t decode x r g g' sends step = record {
  at = λ bs rest n h.
      let (v, e, short, reads) = sends bs h in
      let one : 1 + n ≡ suc n = omega arith in
      rw (e, one)
        (rw append_assoc (
          decode_messages-suc n t v _ rest g g' (next_message-append t v rest short)
            (step v reads)));
}

-- A loop over the entries of a dict, each round filling the dict of the frame.
module _ {V : Type 0} (t : ℕ) (decode : Bytes → Option (ℤ × V)) (Good : V → Type 0)
    (write : ℤ × V → Result Bytes) (put : Dict V → ControlFrame)
    (sends : (k : ℤ) (v : V)
      → Good v
      → (bs : Bytes) → write (k, v) ≡ ok bs
      → Sends t decode (k, v) bs)
    (applies : (k : ℤ) (v : V) (d : Dict V) (value : Bytes)
      → decode value ≡ some (k, v)
      → apply_message (put d) t value ≡ some (put (insert k v d))) where
  Carries-entries :
      (es d : Dict V)
      → All (λ e. Good e.1) es
      → Carries (write_each write es) (length es) (put d) (put (insert_all d es))
  unfolding write_each
  Carries-entries [] d h = Carries-nothing (put d)
  Carries-entries ((k, v) ∷ es) d h = recount (omega arith) (
      Carries-one t decode (k, v) (write (k, v)) (put d) (put (insert k v d)) (sends k v h.0)
        (applies k v d)
      next Carries-entries es (insert k v d) h.1)

  pub Carries-dict :
      (es : Dict V)
      → HasDistinctKeys es
      → All (λ e. Good e.1) es
      → Carries (write_each write es) (length es) (put []) (put es)
  Carries-dict es distinct good =
      rw (insert_all_distinct es distinct) at (Carries-entries es [] good)

-- A loop over a list, each round appending to the list of the frame.
module _ {A : Type 0} (t : ℕ) (decode : Bytes → Option A) (Good : A → Type 0)
    (write : A → Result Bytes) (put : List A → ControlFrame)
    (sends : (x : A) → Good x → (bs : Bytes) → write x ≡ ok bs → Sends t decode x bs)
    (applies : (x : A) (xs : List A) (value : Bytes)
      → decode value ≡ some x
      → apply_message (put xs) t value ≡ some (put (xs ++ x ∷ []))) where
  Carries-items :
      (es xs : List A)
      → All Good es
      → Carries (write_each write es) (length es) (put xs) (put (xs ++ es))
  unfolding write_each
  Carries-items [] xs h = rw append-nil (Carries-nothing (put xs))
  Carries-items (x ∷ es) xs h =
      let regroup : xs ++ (x ∷ es) ≡ (xs ++ x ∷ []) ++ es = rw append_assoc in
      rw regroup (
        recount (omega arith) (
          Carries-one t decode x (write x) (put xs) (put (xs ++ x ∷ [])) (sends x h.0)
            (applies x xs)
          next Carries-items es (xs ++ x ∷ []) h.1))

  pub Carries-list :
      (es : List A) → All Good es → Carries (write_each write es) (length es) (put []) (put es)
  Carries-list es good = Carries-items es [] good

pub All_trivial {ℓ} : {A : Type ℓ} (xs : List A) → All (λ x. Unit {0}) xs
All_trivial [] = tt
All_trivial (x ∷ xs) = (tt, All_trivial xs)
