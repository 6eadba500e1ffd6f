-- ===== src/Prelude/TextDicts.antt =====
-- Python dicts whose keys are texts, as lists of pairs.
use mathlib.Core.Path.{◌≡◌, refl, sym, subst}
use mathlib.Core.Bool.{Bool, true, false}
use mathlib.Core.Option.{Option, none, some}
use mathlib.Core.List.{List, [], ◌∷◌}
use native.Mathlib.Omega.{arith}
use Prim.Native.Nat.{ℕ}
use mathlib.Core.Logic.{inl, inr}
use gatherlink.Prelude.Tests.{if◌then◌else◌, Bool-cases}
use gatherlink.Prelude.Lists.{All, eq_list, eq_list_refl, eq_list→eq, eq_list_comm}

abbrev pub TextDict : Type 0 → Type 0
TextDict V = List (List ℕ × V)

module _ {V : Type 0} where
  -- `d.get(key)`
  abbrev pub lookup_text : List ℕ → TextDict V → Option V
  lookup_text k [] = none
  lookup_text k ((j, v) ∷ d) = if eq_list j k then some v else lookup_text k d

  -- `d[key] = value`
  abbrev pub insert_text : List ℕ → V → TextDict V → TextDict V
  insert_text k v [] = (k, v) ∷ []
  insert_text k v ((j, w) ∷ d) = if eq_list j k then (j, v) ∷ d else (j, w) ∷ insert_text k v d

  -- `d.pop(key, None)`
  abbrev pub remove_text : List ℕ → TextDict V → TextDict V
  remove_text k [] = []
  remove_text k ((j, w) ∷ d) = if eq_list j k then d else (j, w) ∷ remove_text k d

  abbrev pub HasDistinctTexts : TextDict V → Type 0
  HasDistinctTexts [] = Unit
  HasDistinctTexts ((k, v) ∷ d) = (lookup_text k d ≡ none) × HasDistinctTexts d

  pub lookup_text-insert_text :
      (k : List ℕ) (v : V) (d : TextDict V) → lookup_text k (insert_text k v d) ≡ some v
  lookup_text-insert_text k v [] = ground (arith, eq_list_refl k)
  lookup_text-insert_text k v ((j, w) ∷ d) = ground (arith, lookup_text-insert_text k v d)

  pub lookup_text-insert_other :
      (i k : List ℕ) (v : V) (d : TextDict V)
      → eq_list i k ≡ false
      → lookup_text i (insert_text k v d) ≡ lookup_text i d
  lookup_text-insert_other i k v [] n = ground (arith, eq_list_comm i k)
  lookup_text-insert_other i k v ((j, w) ∷ d) n =
      ground (arith, lookup_text-insert_other i k v d n, eq_list→eq j k, eq_list_comm i k)

  pub All-insert_text {κ} :
      (P : List ℕ × V → Type κ) (k : List ℕ) (v : V) (d : TextDict V)
      → P (k, v)
      → All P d
      → All P (insert_text k v d)
  All-insert_text P k v [] x a = (x, tt)
  All-insert_text P k v ((j, w) ∷ d) x a =
      split (eq_list j k) (eq_list→eq j k) (All-insert_text P k v d x a.1)
    where
      split :
          (b : Bool)
          → (b ≡ true → j ≡ k)
          → All P (insert_text k v d)
          → All P (if b then (j, v) ∷ d else (j, w) ∷ insert_text k v d)
      split true e ih = (subst (λ (i : List ℕ). P (i, v)) (sym (e refl)) x, a.1)
      split false e ih = (a.0, ih)

  pub All-remove_text {κ} :
      (P : List ℕ × V → Type κ) (k : List ℕ) (d : TextDict V) → All P d → All P (remove_text k d)
  All-remove_text P k [] a = tt
  All-remove_text P k ((j, w) ∷ d) a = split (eq_list j k) (All-remove_text P k d a.1)
    where
      split :
          (b : Bool) → All P (remove_text k d) → All P (if b then d else (j, w) ∷ remove_text k d)
      split true ih = a.1
      split false ih = (a.0, ih)

  lookup_other :
      (i k : List ℕ) (v : V) (d : TextDict V)
      → eq_list i k ≡ false
      → lookup_text i d ≡ none
      → lookup_text i (insert_text k v d) ≡ none
  lookup_other i k v [] n h = ground (arith, eq_list_comm i k)
  lookup_other i k v ((j, w) ∷ d) n h =
      ground (arith, lookup_other i k v d, eq_list→eq j k, eq_list_comm i k)

  lookup_removed :
      (i k : List ℕ) (d : TextDict V)
      → lookup_text i d ≡ none
      → lookup_text i (remove_text k d) ≡ none
  lookup_removed i k [] h = refl
  lookup_removed i k ((j, w) ∷ d) h = ground (arith, lookup_removed i k d)

  pub HasDistinctTexts-insert_text :
      (k : List ℕ) (v : V) (d : TextDict V)
      → HasDistinctTexts d
      → HasDistinctTexts (insert_text k v d)
  HasDistinctTexts-insert_text k v [] h = (refl, tt)
  HasDistinctTexts-insert_text k v ((j, w) ∷ d) h = elim (Bool-cases (eq_list j k)) [
    | inl same ↦ rw same h
    | inr other ↦ rw other (lookup_other j k v d other h.0, HasDistinctTexts-insert_text k v d h.1)
  ]

  pub HasDistinctTexts-remove_text :
      (k : List ℕ) (d : TextDict V) → HasDistinctTexts d → HasDistinctTexts (remove_text k d)
  HasDistinctTexts-remove_text k [] h = tt
  HasDistinctTexts-remove_text k ((j, w) ∷ d) h = elim (Bool-cases (eq_list j k)) [
    | inl same ↦ rw same h.1
    | inr other ↦ rw other (lookup_removed j k d h.0, HasDistinctTexts-remove_text k d h.1)
  ]
