-- ===== src/Bytes/Laws.antt =====
-- The big-endian codec: lengths, and reading back what was written.
use native.Mathlib.Nat.{pow-suc}
use gatherlink.Prelude.{
  ℕ, zero, suc, ◌+◌, ◌*◌, ◌/◌, ◌%◌, ◌^◌, ◌<◌, ◌≡◌, refl, [], ◌∷◌, ◌++◌, length, length-append,
  arith,
}
use gatherlink.Bytes.{Bytes, to_be, from_be, from_be_acc}

pub length-to_be : (w v : ℕ) → length (to_be w v) ≡ w
unfolding to_be
length-to_be zero v = refl
length-to_be (suc w) v =
    omega (arith, length-append (to_be w (v / 256)) (v % 256 ∷ []), length-to_be w (v / 256))

from_be_acc-append :
    (acc : ℕ) (xs : Bytes) (b : ℕ) → from_be_acc acc (xs ++ b ∷ []) ≡ from_be_acc acc xs * 256 + b
unfolding from_be_acc
from_be_acc-append acc [] b = refl
from_be_acc-append acc (x ∷ xs) b = from_be_acc-append (acc * 256 + x) xs b

-- Reading gives back the number that was written, if it fits the width.
pub from_be-to_be : (w v : ℕ) → v < 256 ^ w → from_be (to_be w v) ≡ v
unfolding from_be to_be
from_be-to_be zero v h = omega arith
from_be-to_be (suc w) v h =
    let ih = from_be-to_be w (v / 256) (omega (arith, pow-suc 256 w)) in
    rw (from_be_acc-append, ih) (omega arith)
