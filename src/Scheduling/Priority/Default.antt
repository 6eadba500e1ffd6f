-- ===== src/Scheduling/Priority/Default.antt =====
-- When the plain poll order of python/gatherlink/scheduling/service_priority.py is enough.
use gatherlink.Prelude.{
  ℕ, zero, suc, ◌≡◌, refl, ap, ◌∙◌, sym, Bool, true, false, not, ◌||◌, List, [], ◌∷◌, ◌++◌, All,
  some, map, if◌then◌else◌, Bool-cases, Option-cases, inl, inr, arith,
}
use gatherlink.Prelude.Int.{ℤ, pos, eq_ℤ, ltb_ℤ, ◌≤ℤ◌}
use gatherlink.Prelude.TextDicts.{TextDict, lookup_text}
use gatherlink.Text.{Text}
use gatherlink.Scheduling.Priority.{
  RuntimeServiceConfig, listens, copies, service_poll_order, value_or, packet_budget_of,
  service_poll_plan, uses_service_drain_plan,
}

-- No override asks for a negative number.
abbrev pub IsNonNegative : TextDict ℤ → Type 0
IsNonNegative overrides = All (λ (e : Text × ℤ). pos 0 ≤ℤ e.1) overrides

found_non_negative :
    (name : Text) (overrides : TextDict ℤ) {v : ℤ}
    → IsNonNegative overrides
    → lookup_text name overrides ≡ some v
    → pos 0 ≤ℤ v
found_non_negative name [] n h = absurd (cc h)
found_non_negative name ((j, w) ∷ overrides) {v} n h =
    ground (arith, found_non_negative name overrides {v = v} n.1)

zero_of_sign : (v : ℤ) → pos 0 ≤ℤ v → ltb_ℤ (pos 0) v ≡ false → eq_ℤ v (pos 0) ≡ true
zero_of_sign v n h = ground arith

value_or-zero :
    (overrides : TextDict ℤ) (name : Text) (default : ℤ)
    → IsNonNegative overrides
    → ltb_ℤ (pos 0) (value_or overrides name (pos 0)) ≡ false
    → value_or overrides name default ≡ default
value_or-zero overrides name default n h = elim (Option-cases (lookup_text name overrides)) [
  | inl missing ↦ rw (value_or, missing) refl
  | inr (v, found) ↦ elim (Bool-cases (eq_ℤ v (pos 0))) [
    | inl none_asked ↦ rw (value_or, found, none_asked) refl
    | inr asked ↦
        let h' = rw (value_or, found, asked) at h in
        absurd (cc (zero_of_sign v (found_non_negative name overrides n found) h', asked))
  ]
]

map-slots {ℓ κ} :
    {A : Type ℓ} {B : Type κ} (f : A → B) (n : ℕ) (x : A) (xs : List A)
    → map f (copies n x ++ xs) ≡ copies n (f x) ++ map f xs
map-slots f zero x xs = refl
map-slots f (suc n) x xs = ap (λ l. f x ∷ l) (map-slots f n x xs)

or_false : (a b : Bool) → (a || b) ≡ false → (a ≡ false) × (b ≡ false)
or_false a b h = ground arith

no_batch :
    (v : ℤ) (batch : ℤ)
    → not (eq_ℤ v (pos 0)) ≡ false
    → (if eq_ℤ v (pos 0) then batch else v) ≡ batch
no_batch v batch h = ground arith

packet_budget_of-default :
    (batch : ℤ) (overrides : TextDict ℤ) (service : RuntimeServiceConfig)
    → IsNonNegative overrides
    → (not (eq_ℤ service.scheduler_poll_batch_packets (pos 0))
        || ltb_ℤ (pos 0) (value_or overrides service.name (pos 0)))
      ≡ false
    → packet_budget_of batch overrides service ≡ batch
packet_budget_of-default batch overrides service n h =
    let (b, o) = or_false _ _ h in
    value_or-zero overrides service.name _ n o
    ∙ no_batch service.scheduler_poll_batch_packets batch b

-- When no override is negative and the test says that no drain plan is in use, the plan is the
-- plain poll order, with the batch size for every slot.
pub service_poll_plan-default :
    (services : List RuntimeServiceConfig) (batch : ℤ) (overrides : TextDict ℤ)
    → IsNonNegative overrides
    → uses_service_drain_plan services overrides ≡ false
    → service_poll_plan services batch overrides
      ≡ map (λ name. (name, batch)) (service_poll_order services)
unfolding service_poll_plan service_poll_order
service_poll_plan-default [] batch overrides n h = refl
service_poll_plan-default (service ∷ services) batch overrides n h =
    elim (Bool-cases (listens service)) [
      | inr silent ↦
          let rest = service_poll_plan-default services batch overrides n (rw silent at h) in
          rw (service_poll_plan, service_poll_order, silent) rest
      | inl polled ↦
          let (own, others) = or_false _ _ (rw polled at h) in
          let rest = service_poll_plan-default services batch overrides n others in
          rw
            (
              service_poll_plan,
              service_poll_order,
              polled,
              packet_budget_of-default batch overrides service n own,
              rest,
            )
            (sym (map-slots (λ name. (name, batch)) _ service.name (service_poll_order services)))
    ]
