-- ===== src/Bytes.antt =====
-- Byte strings, and the big-endian integers that python/gatherlink/protocol.py writes and reads.
-- A byte is a number below 256, a `bytes` or `bytearray` is a list of them.
pub mod Laws
use gatherlink.Prelude.{
  ℕ, zero, suc, ◌+◌, ◌*◌, ◌/◌, ◌%◌, ◌^◌, ◌<◌, List, [], ◌∷◌, ◌++◌, take, drop, ltb, Result, ok, err,
  overflow_error, value_error, if◌then◌else◌, ◌>>=◌,
}
use gatherlink.Prelude.Int.{ℤ, pos, negsuc}

abbrev pub Bytes : Type 0
Bytes = List ℕ

-- The `w` big-endian bytes of a number, the least significant one last.
unfoldable pub to_be : ℕ → ℕ → Bytes
to_be zero v = []
to_be (suc w) v = to_be w (v / 256) ++ (v % 256) ∷ []

from_be_acc : ℕ → Bytes → ℕ
from_be_acc acc [] = acc
from_be_acc acc (b ∷ bs) = from_be_acc (acc * 256 + b) bs

-- `int.from_bytes(bs, "big")`
unfoldable pub from_be : Bytes → ℕ
unfolding from_be_acc
from_be bs = from_be_acc 0 bs

-- `value.to_bytes(w, "big")`
unfoldable pub to_bytes : ℕ → ℤ → Result Bytes
to_bytes w (pos n) = if ltb n (256 ^ w) then ok (to_be w n) else err overflow_error
to_bytes w (negsuc n) = err overflow_error

-- `output.append(value)` on a bytearray
unfoldable pub append_byte : ℤ → Result Bytes
append_byte (pos n) =
    if ltb n 256 then ok (n ∷ []) else err (value_error "byte must be in range(0, 256)")
append_byte (negsuc n) = err (value_error "byte must be in range(0, 256)")

unfoldable pub append_u16 : ℤ → Result Bytes
unfolding to_bytes
append_u16 value = to_bytes 2 value

unfoldable pub append_u32 : ℤ → Result Bytes
unfolding to_bytes
append_u32 value = to_bytes 4 value

unfoldable pub append_u64 : ℤ → Result Bytes
unfolding to_bytes
append_u64 value = to_bytes 8 value

-- `int.from_bytes(input_bytes[offset : offset + w], "big")`
unfoldable pub read_be : ℕ → Bytes → ℕ → ℕ
read_be w input_bytes offset = from_be (take w (drop offset input_bytes))

unfoldable pub read_u16 : Bytes → ℕ → ℕ
unfolding read_be
read_u16 = read_be 2

unfoldable pub read_u32 : Bytes → ℕ → ℕ
unfolding read_be
read_u32 = read_be 4

unfoldable pub read_u64 : Bytes → ℕ → ℕ
unfolding read_be
read_u64 = read_be 8
