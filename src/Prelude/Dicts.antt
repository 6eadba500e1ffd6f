-- ===== src/Prelude/Dicts.antt =====
-- A Python dict with int keys, in insertion order: assigning to a key that is there keeps its place.
pub mod Fresh
pub mod Insert
use mathlib.Core.Path.{◌≡◌}
use mathlib.Core.Bool.{Bool, false, ◌||◌}
use mathlib.Core.List.{List, [], ◌∷◌}
use mathlib.Core.Option.{Option, none, some}
use gatherlink.Prelude.Tests.{if◌then◌else◌}
use gatherlink.Prelude.Int.{ℤ, eq_ℤ}

abbrev pub Dict {ℓ} : Type ℓ → Type ℓ
Dict V = List (ℤ × V)

module _ {ℓ} {V : Type ℓ} where
  -- `d.get(k)`
  abbrev pub lookup : ℤ → Dict V → Option V
  lookup k [] = none
  lookup k ((j, v) ∷ d) = if eq_ℤ k j then some v else lookup k d

  -- `k in d`
  abbrev pub contains : ℤ → Dict V → Bool
  contains k [] = false
  contains k ((j, v) ∷ d) = eq_ℤ k j || contains k d

  -- `d[k] = v`
  abbrev pub insert : ℤ → V → Dict V → Dict V
  insert k v [] = (k, v) ∷ []
  insert k v ((j, w) ∷ d) = if eq_ℤ k j then (k, v) ∷ d else (j, w) ∷ insert k v d

  -- `for k, v in entries: d[k] = v`
  abbrev pub insert_all : Dict V → Dict V → Dict V
  insert_all d [] = d
  insert_all d ((k, v) ∷ entries) = insert_all (insert k v d) entries

  -- No key is listed twice, as in every dict.
  abbrev pub HasDistinctKeys : Dict V → Type 0
  HasDistinctKeys [] = Unit
  HasDistinctKeys ((k, v) ∷ d) = (contains k d ≡ false) × HasDistinctKeys d
