-- ===== src/Bits.antt =====
-- Single bits of a number, and how `&` and `|` with one bit and a shift act on them.
mod Digits
use Prim.Native.Nat.{min, max, bit_and, bit_or}
use native.Mathlib.Nat.{pow-suc, one-le-pow}
use gatherlink.Prelude.{
  ℕ, zero, suc, ◌+◌, ◌-◌, ◌*◌, ◌/◌, ◌%◌, ◌^◌, ◌≤◌, ◌<◌, ◌≡◌, ◌≢◌, refl, ◌==◌, ltb, if◌then◌else◌,
  arith, ap,
}
use Digits.{bit_and_digit, bit_or_digit}

-- Bit `i` of `b`, as 0 or 1.
unfoldable pub bit : ℕ → ℕ → ℕ
bit b zero = b % 2
bit b (suc i) = bit (b / 2) i

pub bit-lt : (b i : ℕ) → bit b i < 2
unfolding bit
bit-lt b zero = omega arith
bit-lt b (suc i) = bit-lt (b / 2) i

pub bit-zero : (i : ℕ) → bit 0 i ≡ 0
unfolding bit
bit-zero zero = refl
bit-zero (suc i) = bit-zero i

bit_and-zero_fuel : (n b : ℕ) → b ≤ n → bit_and b 0 ≡ 0
bit_and-zero_fuel n zero h = refl
bit_and-zero_fuel zero (suc b) h = absurd (omega arith)
bit_and-zero_fuel (suc n) (suc b) h =
    omega (arith, bit_and_digit (suc b) 0, bit_and-zero_fuel n (suc b / 2) (omega arith))

bit_or-zero_fuel : (n b : ℕ) → b ≤ n → bit_or b 0 ≡ b
bit_or-zero_fuel n zero h = refl
bit_or-zero_fuel zero (suc b) h = absurd (omega arith)
bit_or-zero_fuel (suc n) (suc b) h =
    omega (arith, bit_or_digit (suc b) 0, bit_or-zero_fuel n (suc b / 2) (omega arith))

bit_or-zero : (b : ℕ) → bit_or b 0 ≡ b
bit_or-zero b = bit_or-zero_fuel b b (omega arith)

half-two_pow : (b k : ℕ) → (b * 2 ^ suc k / 2 ≡ b * 2 ^ k) × (b * 2 ^ suc k % 2 ≡ 0)
half-two_pow b k = omega (arith, ap (λ (t : ℕ). b * t) (pow-suc 2 k))

-- `b & (1 << k)` is zero exactly if bit `k` of `b` is.
pub bit_and-mask : (b k : ℕ) → bit_and b (1 * 2 ^ k) ≡ bit b k * 2 ^ k
unfolding bit
bit_and-mask b zero =
    omega (arith, bit_and_digit b 1, bit_and-zero_fuel (b / 2) (b / 2) (omega arith))
bit_and-mask b (suc k) =
    let (half, even) = half-two_pow 1 k in
    rw (bit_and_digit b (1 * 2 ^ suc k), half, even, bit_and-mask (b / 2) k)
      (omega (arith, ap (λ (t : ℕ). bit (b / 2) k * t) (pow-suc 2 k)))

bit_or-half : (b c j : ℕ) → bit (bit_or b c) (suc j) ≡ bit (bit_or (b / 2) (c / 2)) j
unfolding bit
bit_or-half b c j =
    let e : bit_or b c / 2 ≡ bit_or (b / 2) (c / 2) = omega (arith, bit_or_digit b c) in rw e

bit_or-low : (b c : ℕ) → bit_or b c % 2 ≡ max (b % 2) (c % 2)
bit_or-low b c = omega (arith, bit_or_digit b c)

-- `b | (1 << k)` sets bit `k` and leaves the others.
pub bit-bit_or_mask : (b k j : ℕ) → bit (bit_or b (1 * 2 ^ k)) j ≡ (if j == k then 1 else bit b j)
unfolding bit
bit-bit_or_mask b zero zero = omega (arith, bit_or-low b 1)
bit-bit_or_mask b zero (suc j) = rw (bit_or-half b 1 j, bit_or-zero (b / 2)) (ground arith)
bit-bit_or_mask b (suc k) zero =
    let (half, even) = half-two_pow 1 k in rw (bit_or-low b (1 * 2 ^ suc k), even) (ground arith)
bit-bit_or_mask b (suc k) (suc j) =
    let (half, even) = half-two_pow 1 k in
    rw (bit_or-half b (1 * 2 ^ suc k) j, half, bit-bit_or_mask (b / 2) k j) (ground arith)

bit-shift : (b s j : ℕ) → bit (b * 2 ^ s) j ≡ (if ltb j s then 0 else bit b (j - s))
unfolding bit
bit-shift b zero j =
    let same : b * 2 ^ 0 ≡ b = omega arith in
    let start : j - 0 ≡ j = omega arith in rw (same, start) (ground arith)
bit-shift b (suc s) zero = ground (arith, half-two_pow b s)
bit-shift b (suc s) (suc j) =
    let (half, even) = half-two_pow b s in rw (half, bit-shift b s j) (ground arith)

-- `(b << s) | 1` moves the bits up by `s`, clears those below and sets bit 0.
pub bit-shift_bit_or :
    (b s j : ℕ)
    → 0 < s
    → bit (bit_or (b * 2 ^ s) 1) j ≡ (if j == 0 then 1 else if ltb j s then 0 else bit b (j - s))
unfolding bit
bit-shift_bit_or b s zero h = omega (arith, bit_or-low (b * 2 ^ s) 1)
bit-shift_bit_or b s (suc j) h =
    rw (bit_or-half (b * 2 ^ s) 1 j, bit_or-zero) (ground (arith, bit-shift b s (suc j)))

product_zero : (x p : ℕ) → x < 2 → 0 < p → (x * p == 0) ≡ (x == 0)
product_zero zero p h q = let e : 0 * p ≡ 0 = omega arith in rw e
product_zero (suc zero) p h q = let e : 1 * p ≡ p = omega arith in rw e (ground arith)
product_zero (suc (suc x)) p h q = absurd (omega arith)

-- The test `b & (1 << k)`.
pub bit_and-test : (b k : ℕ) → (bit_and b (1 * 2 ^ k) == 0) ≡ (bit b k == 0)
bit_and-test b k =
    rw bit_and-mask (product_zero (bit b k) (2 ^ k) (bit-lt b k) (one-le-pow k 2 (omega arith)))
