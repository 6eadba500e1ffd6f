-- ===== src/Prelude/Dicts/Insert.antt =====
-- What an assignment to a dict keeps: distinct keys, and a property of all entries.
use mathlib.Core.Path.{◌≡◌, refl}
use mathlib.Core.Bool.{◌||◌}
use mathlib.Core.List.{List, [], ◌∷◌, ◌++◌}
use native.Mathlib.Omega.{arith}
use gatherlink.Prelude.Tests.{Bool-cases}
use mathlib.Core.Logic.{inl, inr}
use gatherlink.Prelude.Int.{ℤ, eq_ℤ, eq_ℤ_iff}
use gatherlink.Prelude.Lists.{All}
use gatherlink.Prelude.Dicts.{Dict, contains, insert, HasDistinctKeys}

module _ {ℓ} {V : Type ℓ} where
  pub contains-insert :
      (j k : ℤ) (v : V) (d : Dict V) → contains j (insert k v d) ≡ (eq_ℤ j k || contains j d)
  contains-insert j k v [] = refl
  contains-insert j k v ((i, w) ∷ d) =
      ground (arith, contains-insert j k v d, eq_ℤ_iff k i, eq_ℤ_iff j k, eq_ℤ_iff j i)

  pub insert-HasDistinctKeys :
      (k : ℤ) (v : V) (d : Dict V) → HasDistinctKeys d → HasDistinctKeys (insert k v d)
  insert-HasDistinctKeys k v [] h = (refl, tt)
  insert-HasDistinctKeys k v ((i, w) ∷ d) h = elim (Bool-cases (eq_ℤ k i)) [
    | inl same ↦ rw same (rw ((eq_ℤ_iff k i).0 same) h.0, h.1)
    | inr other ↦ rw other (
      ground (arith, contains-insert i k v d, eq_ℤ_iff i k, eq_ℤ_iff k i),
      insert-HasDistinctKeys k v d h.1,
    )
  ]

  pub All-insert {κ} :
      (P : ℤ × V → Type κ) (k : ℤ) (v : V) (d : Dict V) → P (k, v) → All P d → All P (insert k v d)
  All-insert P k v [] p h = (p, tt)
  All-insert P k v ((i, w) ∷ d) p h = elim (Bool-cases (eq_ℤ k i)) [
    | inl same ↦ rw same (p, h.1)
    | inr other ↦ rw other (h.0, All-insert P k v d p h.1)
  ]

pub All-append_one {ℓ κ} :
    {A : Type ℓ} (P : A → Type κ) (xs : List A) (x : A) → All P xs → P x → All P (xs ++ x ∷ [])
All-append_one P [] x h p = (p, tt)
All-append_one P (y ∷ xs) x h p = (h.0, All-append_one P xs x h.1 p)
