-- ===== src/Protocol/RoundTrip/Writes.antt =====
-- A calculus of successful writes: which bytes a chain of appends leaves, and what its success shows
-- of the values that were appended.
use gatherlink.Prelude.{
  ℕ, ◌≡◌, ◌≢◌, refl, String, Bool, true, false, [], ◌∷◌, ◌++◌, Option, some, Result, ok, raise_if,
  ◌>>=◌, ◌>>◌, ◌⊕◌, ⊕-eq-ok, arith,
}
use gatherlink.Prelude.Int.{ℤ, pos, pos_part}
use gatherlink.Bytes.{
  Bytes, to_be, from_be, to_bytes, append_byte, append_u16, append_u32, append_u64,
}
use gatherlink.Bytes.Laws.{from_be-to_be}
use gatherlink.Protocol.Limits.{
  optional_u64, optional_u32, optional_u16, optional_metric_u32, counter_u32, decode_optional,
}
use gatherlink.Protocol.Encode.Paths.{append_counter}
use gatherlink.Protocol.RoundTrip.Sends.{or_zero}

-- If `r` succeeds, it has written `bs`, and `P` holds.
pub record Writes (r : Result Bytes) (bs : Bytes) (P : Type 0) : Type 0 where
  pub at : (z : Bytes) → r ≡ ok z → (z ≡ bs) × P

infixr 55 ◌then◌
pub ◌then◌ :
    {r s : Result Bytes} {xs ys : Bytes} {P Q : Type 0}
    → Writes r xs P
    → Writes s ys Q
    → Writes (r ⊕ s) (xs ++ ys) (P × Q)
◌then◌ {r} {s} a b = record {
  at = λ z h.
      let (x, y, hx, hy, e) = ⊕-eq-ok r s h in
      let (ex, p) = a.at x hx in let (ey, q) = b.at y hy in (rw (e, ex, ey), (p, q));
}

pub guarded :
    (test : Bool) (message : String) {r : Result Bytes} {xs : Bytes} {P : Type 0}
    → Writes r xs P
    → Writes (raise_if test message >> r) xs ((test ≡ false) × P)
guarded true message a = record { at = λ z h. absurd (cc) }
guarded false message a = record { at = λ z h. let (e, p) = a.at z h in (e, (refl, p)) }

pub writes_bytes : (bs : Bytes) → Writes (ok bs) bs Unit
writes_bytes bs = record { at = λ z h. (cc, tt) }

pub writes_byte : (x : ℤ) → Writes (append_byte x) (pos_part x ∷ []) (x ≡ pos (pos_part x))
unfolding append_byte
writes_byte x = record { at = λ z h. (ground arith, ground arith) }

writes_be :
    (w : ℕ) (x : ℤ)
    → Writes (to_bytes w x) (to_be w (pos_part x)) (pos (from_be (to_be w (pos_part x))) ≡ x)
unfolding to_bytes
writes_be w x = record { at = λ z h. (ground arith, ground (arith, from_be-to_be w (pos_part x))) }

pub writes_u16 :
    (x : ℤ)
    → Writes (append_u16 x) (to_be 2 (pos_part x)) (pos (from_be (to_be 2 (pos_part x))) ≡ x)
unfolding append_u16
writes_u16 = writes_be 2

pub writes_u32 :
    (x : ℤ)
    → Writes (append_u32 x) (to_be 4 (pos_part x)) (pos (from_be (to_be 4 (pos_part x))) ≡ x)
unfolding append_u32
writes_u32 = writes_be 4

pub writes_u64 :
    (x : ℤ)
    → Writes (append_u64 x) (to_be 8 (pos_part x)) (pos (from_be (to_be 8 (pos_part x))) ≡ x)
unfolding append_u64
writes_u64 = writes_be 8

pub writes_optional_u64 :
    (x : Option ℤ)
    → Writes
        (optional_u64 x >>= append_u64)
        (to_be 8 (or_zero x))
        (decode_optional (from_be (to_be 8 (or_zero x))) ≡ x)
unfolding optional_u64 decode_optional append_u64
writes_optional_u64 x = record {
  at = λ z h. (ground arith, ground (arith, from_be-to_be 8 (or_zero x)));
}

pub writes_optional_u32 :
    (x : Option ℤ)
    → Writes
        (optional_u32 x >>= append_u32)
        (to_be 4 (or_zero x))
        (decode_optional (from_be (to_be 4 (or_zero x))) ≡ x)
unfolding optional_u32 decode_optional append_u32
writes_optional_u32 x = record {
  at = λ z h. (ground arith, ground (arith, from_be-to_be 4 (or_zero x)));
}

pub writes_optional_u16 :
    (x : Option ℤ)
    → Writes
        (optional_u16 x >>= append_u16)
        (to_be 2 (or_zero x))
        (decode_optional (from_be (to_be 2 (or_zero x))) ≡ x)
unfolding optional_u16 decode_optional append_u16
writes_optional_u16 x = record {
  at = λ z h. (ground arith, ground (arith, from_be-to_be 2 (or_zero x)));
}

-- A metric of 0 is written as a missing one.
pub writes_optional_metric :
    (x : Option ℤ)
    → x ≢ some (pos 0)
    → Writes
        (optional_metric_u32 x >>= append_u32)
        (to_be 4 (or_zero x))
        (decode_optional (from_be (to_be 4 (or_zero x))) ≡ x)
unfolding optional_metric_u32 decode_optional append_u32
writes_optional_metric x nonzero = record {
  at = λ z h. (ground arith, ground (arith, from_be-to_be 4 (or_zero x)));
}

pub writes_counter :
    (x : ℤ)
    → Writes (append_counter x) (to_be 4 (pos_part x)) (pos (from_be (to_be 4 (pos_part x))) ≡ x)
unfolding append_counter counter_u32 append_u32
writes_counter x = record {
  at = λ z h. (ground arith, ground (arith, from_be-to_be 4 (pos_part x)));
}
