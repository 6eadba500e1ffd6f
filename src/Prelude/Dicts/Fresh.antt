-- ===== src/Prelude/Dicts/Fresh.antt =====
-- Filling an empty dict with entries under distinct keys gives these entries, in their order.
use mathlib.Core.Path.{◌≡◌, refl}
use mathlib.Core.Bool.{false}
use mathlib.Core.List.{[], ◌∷◌, ◌++◌, append_assoc, append-nil}
use native.Mathlib.Omega.{arith}
use gatherlink.Prelude.Int.{ℤ, eq_ℤ, eq_ℤ_iff}
use gatherlink.Prelude.Dicts.{Dict, contains, insert, insert_all, HasDistinctKeys}

module _ {ℓ} {V : Type ℓ} where
  insert_fresh :
      (k : ℤ) (v : V) (d : Dict V) → contains k d ≡ false → insert k v d ≡ d ++ (k, v) ∷ []
  insert_fresh k v [] h = refl
  insert_fresh k v (e ∷ d) h = ground (arith, insert_fresh k v d)

  contains-append :
      (j k : ℤ) (v : V) (d : Dict V)
      → contains j d ≡ false
      → eq_ℤ k j ≡ false
      → contains j (d ++ (k, v) ∷ []) ≡ false
  contains-append j k v [] h n = ground (arith, eq_ℤ_iff k j, eq_ℤ_iff j k)
  contains-append j k v (e ∷ d) h n = ground (arith, contains-append j k v d)

  -- None of the entries has its key in the dict.
  abbrev Fresh : Dict V → Dict V → Type 0
  Fresh d [] = Unit
  Fresh d ((j, w) ∷ es) = (contains j d ≡ false) × Fresh d es

  Fresh-append :
      (k : ℤ) (v : V) (d es : Dict V)
      → Fresh d es
      → contains k es ≡ false
      → Fresh (d ++ (k, v) ∷ []) es
  Fresh-append k v d [] h n = tt
  Fresh-append k v d ((j, w) ∷ es) h n =
      (contains-append j k v d h.0 (ground arith), Fresh-append k v d es h.1 (ground arith))

  insert_all-append : (d es : Dict V) → Fresh d es → HasDistinctKeys es → insert_all d es ≡ d ++ es
  insert_all-append d [] h n = rw append-nil
  insert_all-append d ((k, v) ∷ es) h n = rw (
    insert_fresh k v d h.0,
    insert_all-append (d ++ (k, v) ∷ []) es (Fresh-append k v d es h.1 n.0) n.1,
    append_assoc,
  )

  Fresh-nil : (es : Dict V) → Fresh [] es
  Fresh-nil [] = tt
  Fresh-nil (e ∷ es) = (refl, Fresh-nil es)

  pub insert_all_distinct : (es : Dict V) → HasDistinctKeys es → insert_all [] es ≡ es
  insert_all_distinct es n = insert_all-append [] es (Fresh-nil es) n
