-- ===== src/Prelude/Errors.antt =====
-- Python exceptions as values, and the sequencing of writes to one output.
use Prim.Native.String.{String}
use mathlib.Core.Path.{◌≡◌, refl, subst}
use mathlib.Core.Logic.{◌⊎◌, inl, inr}
use mathlib.Core.Bool.{Bool, true, false}
use mathlib.Core.List.{List, ◌++◌}

-- The exceptions that the modelled code raises itself or through the calls it makes.
pub data Error : Type 0 where
  value_error : String → Error
  overflow_error unicode_error type_error : Error

pub data Result {ℓ} (A : Type ℓ) : Type ℓ where
  ok : A → Result A
  err : Error → Result A

infixl 5 ◌>>=◌ ◌>>◌
abbrev pub ◌>>=◌ {ℓ κ} : {A : Type ℓ} {B : Type κ} → Result A → (A → Result B) → Result B
ok a >>= f = f a
err e >>= f = err e

abbrev pub ◌>>◌ {ℓ κ} : {A : Type ℓ} {B : Type κ} → Result A → Result B → Result B
m >> k = m >>= λ _. k

-- `if test: raise ValueError(message)`
abbrev pub raise_if : Bool → String → Result (Unit {0})
raise_if true message = err (value_error message)
raise_if false message = ok tt

-- Two writes in a row: the bytes of the first, then those of the second.
infixr 55 ◌⊕◌
abbrev pub ◌⊕◌ {ℓ} : {A : Type ℓ} → Result (List A) → Result (List A) → Result (List A)
m ⊕ k = m >>= λ x. k >>= λ y. ok (x ++ y)

module _ {ℓ} {A : Type ℓ} where
  pub ⊕-eq-ok :
      (m k : Result (List A)) {z : List A}
      → (m ⊕ k) ≡ ok z
      → (x : List A) × (y : List A) × (m ≡ ok x) × (k ≡ ok y) × (z ≡ x ++ y)
  ⊕-eq-ok (ok x) (ok y) h = (x, y, refl, refl, cc)
  ⊕-eq-ok (ok x) (err e) h = absurd (cc)
  ⊕-eq-ok (err e) k h = absurd (cc)

-- What a chain that returns has gone through.
pub >>=-eq-ok {ℓ κ} :
    {A : Type ℓ} {B : Type κ} {y : B} (first : Result A) (next : A → Result B)
    → (first >>= next) ≡ ok y
    → (x : A) × (first ≡ ok x) × (next x ≡ ok y)
>>=-eq-ok (err e) next returned = absurd (cc)
>>=-eq-ok (ok x) next returned = (x, refl, returned)

pub raise_if-eq-ok {ℓ} :
    {A : Type ℓ} (test : Bool) (message : String) (k : Result A) {a : A}
    → (raise_if test message >> k) ≡ ok a
    → (test ≡ false) × (k ≡ ok a)
raise_if-eq-ok true message k h = absurd (cc)
raise_if-eq-ok false message k h = (refl, h)

pub ok_inj {ℓ} : {A : Type ℓ} {x y : A} → ok x ≡ ok y → x ≡ y
ok_inj h = cc h

-- Whatever a chain returns meets the predicate. The rules follow the chain step by step.
pub data Ensures {ℓ κ} {A : Type ℓ} (P : A → Type κ) : Result A → Type (ℓ ⊔ κ) where
  returns : {a : A} → P a → Ensures P (ok a)
  raises : {e : Error} → Ensures P (err e)

module _ {ℓ κ} {A : Type ℓ} (P : A → Type κ) where
  pub after_step {ι} :
      {B : Type ι} (m : Result B) (f : B → Result A)
      → ((b : B) → m ≡ ok b → Ensures P (f b))
      → Ensures P (m >>= f)
  after_step (ok b) f k = k b refl
  after_step (err e) f k = raises

  pub after_test :
      (test : Bool) (message : String) (k : Result A)
      → (test ≡ false → Ensures P k)
      → Ensures P (raise_if test message >> k)
  after_test true message k h = raises
  after_test false message k h = h refl

  pub Ensures-ok : {r : Result A} {a : A} → Ensures P r → r ≡ ok a → P a
  Ensures-ok (returns x) h = subst P (ok_inj h) x
  Ensures-ok raises h = absurd (cc h)

pub Result-cases {ℓ} :
    {A : Type ℓ} (r : Result A) → ((a : A) × (r ≡ ok a)) ⊎ ((e : Error) × (r ≡ err e))
Result-cases (ok a) = inl (a, refl)
Result-cases (err e) = inr (e, refl)
