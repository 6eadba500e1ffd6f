-- ===== src/Security/Replay/History.antt =====
-- The window against the list of all counters that it has accepted.
use Prim.Native.Nat.{bit_and, bit_or}
use gatherlink.Prelude.{
  ℕ, zero, suc, ◌-◌, ◌*◌, ◌^◌, ◌≤◌, ◌<◌, ◌≡◌, refl, Bool, true, false, not, ◌||◌, ◌&&◌, Option,
  none, some, List, [], ◌∷◌, All, ltb, leb, ◌==◌, if◌then◌else◌, arith, Bool-cases, inl, inr,
}
use gatherlink.Prelude.Int.{ℤ, pos, negsuc}
use gatherlink.Bits.{bit, bit-zero, bit_and-test, bit-bit_or_mask, bit-shift_bit_or}
use gatherlink.Security.Replay.{ReplayWindow, new_window, accept, accept_fresh, accept_after}

abbrev pub member : ℕ → List ℕ → Bool
member c [] = false
member c (x ∷ xs) = (c == x) || member c xs

abbrev flag : Bool → ℕ
flag b = if b then 1 else 0

-- Bit `j` tells whether the counter `j` below the highest one has been accepted.
abbrev pub Marks : ℕ → ℕ → List ℕ → Type 0
Marks highest bitmap seen =
    (j : ℕ) → j ≤ highest → j < 128 → bit bitmap j ≡ flag (member (highest - j) seen)

abbrev pub View : Option ℕ → ℕ → List ℕ → Type 0
View none bitmap seen = seen ≡ []
View (some highest) bitmap seen = Marks highest bitmap seen × All (λ c. c ≤ highest) seen

-- `seen` is what the window has accepted.
pub record Tracks (w : ReplayWindow) (seen : List ℕ) : Type 0 where
  pub size : 1 ≤ w.window_bits
  pub limit : w.window_bits ≤ 128
  pub view : View w.highest w.bitmap seen

member_above : (x h : ℕ) (seen : List ℕ) → All (λ c. c ≤ h) seen → h < x → member x seen ≡ false
member_above x h [] a l = refl
member_above x h (c ∷ seen) a l = ground (arith, member_above x h seen a.1 l)

All_below_mono : (h k : ℕ) (seen : List ℕ) → h ≤ k → All (λ c. c ≤ h) seen → All (λ c. c ≤ k) seen
All_below_mono h k [] l a = tt
All_below_mono h k (c ∷ seen) l a = (omega arith, All_below_mono h k seen l a.1)

-- Where the bits stand after a shift by `s`, or after a jump past the whole window.
bit-shifted :
    (b s j : ℕ)
    → 0 < s
    → bit (bit_or (if leb 128 s then 0 else b * 2 ^ s) 1) j
      ≡ (if j == 0 then 1 else if ltb j s || leb 128 s then 0 else bit b (j - s))
bit-shifted b s j h = elim (Bool-cases (leb 128 s)) [
  | inl far ↦ rw far (ground (arith, bit-shift_bit_or 0 1 j, bit-zero (j - 1)))
  | inr near ↦ rw near (ground (arith, bit-shift_bit_or b s j h))
]

-- A counter above the old highest one was not seen; one below it keeps its bit.
Marks-below :
    (h c bitmap : ℕ) (seen : List ℕ) (j : ℕ)
    → Marks h bitmap seen
    → h < c
    → j ≤ c
    → j < 128
    → c - h ≤ j
    → bit bitmap (j - (c - h)) ≡ flag (member (c - j) seen)
Marks-below h c bitmap seen j m l j1 j2 s =
    let same : h - (j - (c - h)) ≡ c - j = omega arith in
    rw same at (m (j - (c - h)) (omega arith) (omega arith))

-- A newer counter moves the window.
Marks-advance :
    (h c bitmap : ℕ) (seen : List ℕ)
    → Marks h bitmap seen
    → All (λ x. x ≤ h) seen
    → h < c
    → Marks c (bit_or (if leb 128 (c - h) then 0 else bitmap * 2 ^ (c - h)) 1) (c ∷ seen)
Marks-advance h c bitmap seen m a l j j1 j2 =
    rw (bit-shifted bitmap (c - h) j (omega arith))
      (ground (arith, member_above (c - j) h seen a, Marks-below h c bitmap seen j m l j1 j2))

-- An older counter sets its bit.
Marks-mark :
    (h c bitmap : ℕ) (seen : List ℕ)
    → Marks h bitmap seen
    → c ≤ h
    → Marks h (bit_or bitmap (1 * 2 ^ (h - c))) (c ∷ seen)
Marks-mark h c bitmap seen m l j j1 j2 = rw bit-bit_or_mask (ground (arith, m j j1 j2))

abbrev window : ℕ → Option ℕ → ℕ → ReplayWindow
window bits highest bitmap = record { window_bits = bits; highest = highest; bitmap = bitmap }

-- The history after a call.
abbrev pub extend : Bool → ℕ → List ℕ → List ℕ
extend fresh c seen = if fresh then c ∷ seen else seen

accept_after-Tracks :
    (bits h bitmap c : ℕ) (seen : List ℕ)
    → Tracks (window bits (some h) bitmap) seen
    → let (fresh, w') = accept_after (window bits (some h) bitmap) h c in
      Tracks w' (extend fresh c seen)
unfolding accept_after
accept_after-Tracks bits h bitmap c seen t = elim (Bool-cases (ltb h c)) [
  | inl newer ↦ rw newer (record {
    size = t.size;
    limit = t.limit;
    view = (
      Marks-advance h c bitmap seen t.view.0 t.view.1 (ground arith),
      (omega arith, All_below_mono h c seen (ground arith) t.view.1),
    );
  })
  | inr older ↦ elim (Bool-cases (leb bits (h - c) || leb 128 (h - c))) [
    | inl late ↦ rw (older, late) t
    | inr inside ↦ elim (Bool-cases (bit_and bitmap (1 * 2 ^ (h - c)) == 0)) [
      | inl clear ↦
          rw (older, inside, clear)
            (record {
              size = t.size;
              limit = t.limit;
              view = (Marks-mark h c bitmap seen t.view.0 (ground arith), (ground arith, t.view.1));
            })
      | inr taken ↦ rw (older, inside, taken) t
    ]
  ]
]

Marks-first : (c : ℕ) → Marks c 1 (c ∷ [])
unfolding bit
Marks-first c zero j1 j2 = ground arith
Marks-first c (suc j) j1 j2 = ground (arith, bit-zero j)

accept_fresh-Tracks :
    (bits bitmap : ℕ) (o : Option ℕ) (c : ℕ) (seen : List ℕ)
    → Tracks (window bits o bitmap) seen
    → let (fresh, w') = accept_fresh (window bits o bitmap) o c in Tracks w' (extend fresh c seen)
unfolding accept_fresh
accept_fresh-Tracks bits bitmap (some h) c seen t = accept_after-Tracks bits h bitmap c seen t
accept_fresh-Tracks bits bitmap none c seen t =
    rw t.view (record { size = t.size; limit = t.limit; view = (Marks-first c, (omega arith, tt)) })

-- Every window begins with no history.
pub new_window-Tracks : (bits : ℤ) → Tracks (new_window bits) []
unfolding new_window
new_window-Tracks (pos bits) = record { size = omega arith; limit = omega arith; view = refl }
new_window-Tracks (negsuc bits) = record { size = omega arith; limit = omega arith; view = refl }

abbrev pub counter_of : ℤ → ℕ
counter_of (pos c) = c
counter_of (negsuc n) = 0

-- When the window tracks the accepted counters, the window after a call tracks them too, with
-- the new counter in front if the call accepted it.
pub accept-Tracks :
    (w : ReplayWindow) (counter : ℤ) (seen : List ℕ)
    → Tracks w seen
    → let (fresh, w') = accept w counter in Tracks w' (extend fresh (counter_of counter) seen)
unfolding accept
accept-Tracks w (negsuc n) seen t = t
accept-Tracks w (pos c) seen t = elim (Bool-cases (leb (2 ^ 64) c)) [
  | inl large ↦ rw large t
  | inr fits ↦ rw fits (accept_fresh-Tracks w.window_bits w.bitmap w.highest c seen t)
]

-- What a receiver without a window would decide, who remembers every counter.
abbrev pub in_window : ℕ → Option ℕ → ℕ → Bool
in_window bits none c = true
in_window bits (some highest) c = ltb highest c || ltb (highest - c) bits

abbrev pub is_fresh : ReplayWindow → List ℕ → ℤ → Bool
is_fresh w seen (negsuc n) = false
is_fresh w seen (pos c) =
    ltb c (2 ^ 64) && (not (member c seen) && in_window w.window_bits w.highest c)

-- The bit test is the membership test, for a counter that the window covers.
Marks-test :
    (h c bitmap : ℕ) (seen : List ℕ)
    → Marks h bitmap seen
    → c ≤ h
    → h - c < 128
    → not (bit_and bitmap (1 * 2 ^ (h - c)) == 0) ≡ member c seen
Marks-test h c bitmap seen m l near =
    let same : h - (h - c) ≡ c = omega arith in
    let mark = rw same at (m (h - c) (omega arith) near) in rw bit_and-test (ground (arith, mark))

accept_fresh-decides :
    (bits bitmap : ℕ) (o : Option ℕ) (c : ℕ) (seen : List ℕ)
    → Tracks (window bits o bitmap) seen
    → (accept_fresh (window bits o bitmap) o c).0 ≡ (not (member c seen) && in_window bits o c)
unfolding accept_fresh accept_after
accept_fresh-decides bits bitmap none c seen t = rw t.view
accept_fresh-decides bits bitmap (some h) c seen t =
    ground
      (arith, t.limit, t.size, member_above c h seen t.view.1, Marks-test h c bitmap seen t.view.0)

-- When the window tracks the list of accepted counters, it accepts a counter exactly if it fits
-- 64 bits, is not in the list, and is above the highest one or less than `window_bits` below
-- it.
pub accept-eq-is_fresh :
    (w : ReplayWindow) (counter : ℤ) (seen : List ℕ)
    → Tracks w seen
    → (accept w counter).0 ≡ is_fresh w seen counter
unfolding accept
accept-eq-is_fresh w (negsuc n) seen t = refl
accept-eq-is_fresh w (pos c) seen t =
    ground (arith, accept_fresh-decides w.window_bits w.bitmap w.highest c seen t)
