-- ===== src/Security/Replay.antt =====
-- `ReplayWindow` of python/gatherlink/security/replay.py. Python's `bitmap` is an unbounded integer;
-- `1 << k` is `1 * 2 ^ k`.
pub mod History
use Prim.Native.Nat.{min, max, bit_and, bit_or}
use gatherlink.Prelude.{
  ℕ, ◌-◌, ◌*◌, ◌^◌, Bool, true, false, not, ◌||◌, Option, none, some, ltb, leb, ◌==◌, if◌then◌else◌,
}
use gatherlink.Prelude.Int.{ℤ, pos, negsuc}

pub record ReplayWindow : Type 0 where
  pub window_bits : ℕ
  pub highest : Option ℕ
  pub bitmap : ℕ

-- A new window, with `__post_init__`: the size is clamped to 1 ... 128.
unfoldable pub new_window : ℤ → ReplayWindow
new_window (pos bits) = record { window_bits = max 1 (min bits 128); highest = none; bitmap = 0 }
new_window (negsuc bits) = record { window_bits = 1; highest = none; bitmap = 0 }

-- `accept` once a counter has been accepted before: `highest` is not None.
unfoldable pub accept_after : ReplayWindow → ℕ → ℕ → Bool × ReplayWindow
accept_after w highest counter =
    if ltb highest counter
    then (let shift = counter - highest in
        let shifted = if leb 128 shift then 0 else w.bitmap * 2 ^ shift in
        (true, record w { bitmap = bit_or shifted 1; highest = some counter }))
    else (let behind = highest - counter in
        if leb w.window_bits behind || leb 128 behind
        then (false, w)
        else let mask = 1 * 2 ^ behind in
          if not (bit_and w.bitmap mask == 0)
          then (false, w)
          else (true, record w { bitmap = bit_or w.bitmap mask }))

unfoldable pub accept_fresh : ReplayWindow → Option ℕ → ℕ → Bool × ReplayWindow
accept_fresh w none counter = (true, record w { highest = some counter; bitmap = 1 })
accept_fresh w (some highest) counter = accept_after w highest counter

unfoldable pub accept : ReplayWindow → ℤ → Bool × ReplayWindow
unfolding accept_fresh accept_after
accept w (negsuc n) = (false, w)
accept w (pos counter) =
    if leb (2 ^ 64) counter then (false, w) else accept_fresh w w.highest counter
