-- ===== src/Bits/Digits.antt =====
-- One equation for the lowest digit of `&` and `|`. The native operations stand for a recursion on
-- binary digits with fuel.
use Prim.Native.Nat.{min, max, bit_and, bit_or, digits, bitwise, bit_and-bitwise, bit_or-bitwise}
use gatherlink.Prelude.{ℕ, zero, suc, ◌+◌, ◌-◌, ◌*◌, ◌/◌, ◌%◌, ◌≤◌, ◌≡◌, refl, ◌∙◌, arith}

module _ (z : ℕ → ℕ) (f : ℕ → ℕ → ℕ) where
  -- Fuel beyond the number itself changes nothing: first one unit, then any amount.
  digits_spare : (n a b : ℕ) → a ≤ n → digits z f (suc n) a b ≡ digits z f n a b
  digits_spare zero zero b h = refl
  digits_spare zero (suc a) b h = absurd (omega arith)
  digits_spare (suc n) zero b h = refl
  digits_spare (suc n) (suc a) b h = rw (digits_spare n (suc a / 2) (b / 2) (omega arith))

  digits_enough : (k a b : ℕ) → digits z f (k + a) a b ≡ bitwise z f a b
  digits_enough zero a b = let e : 0 + a ≡ a = omega arith in rw e
  digits_enough (suc k) a b =
      let e : suc k + a ≡ suc (k + a) = omega arith in
      rw e (digits_spare (k + a) a b (omega arith) ∙ digits_enough k a b)

  digits_trim : (n a b : ℕ) → a ≤ n → digits z f n a b ≡ bitwise z f a b
  digits_trim n a b h = let e : n - a + a ≡ n = omega arith in rw e at (digits_enough (n - a) a b)

  bitwise_digit :
      (a b : ℕ)
      → bitwise z f (suc a) b ≡ bitwise z f (suc a / 2) (b / 2) * 2 + f (suc a % 2) (b % 2)
  bitwise_digit a b = omega (arith, digits_trim a (suc a / 2) (b / 2) (omega arith))

pub bit_and_digit : (a b : ℕ) → bit_and a b ≡ bit_and (a / 2) (b / 2) * 2 + min (a % 2) (b % 2)
bit_and_digit zero b = simp bit_and-bitwise (omega arith)
bit_and_digit (suc a) b = simp bit_and-bitwise (bitwise_digit (λ y. 0) min a b)

pub bit_or_digit : (a b : ℕ) → bit_or a b ≡ bit_or (a / 2) (b / 2) * 2 + max (a % 2) (b % 2)
bit_or_digit zero b = simp bit_or-bitwise (omega arith)
bit_or_digit (suc a) b = simp bit_or-bitwise (bitwise_digit (λ y. y) max a b)
