-- ===== src/Scheduling/Priority/Fair.antt =====
-- How often each service comes in the poll order of python/gatherlink/scheduling/service_priority.py.
use gatherlink.Prelude.{
  ℕ, zero, suc, ◌+◌, ◌≡◌, refl, ◌∙◌, sym, subst, false, List, [], ◌∷◌, ◌++◌, All, eq_list,
  eq_list_refl, eq_list_comm, if◌then◌else◌, Bool-cases, inl, inr, arith,
}
use gatherlink.Text.{Text}
use gatherlink.Scheduling.Priority.{
  RuntimeServiceConfig, listens, copies, service_priority_poll_slots, service_poll_order,
}

abbrev pub occurrences : Text → List Text → ℕ
occurrences name [] = 0
occurrences name (other ∷ names) =
    let rest = occurrences name names in if eq_list other name then suc rest else rest

-- No two services have the same name.
abbrev pub HasDistinctNames : List RuntimeServiceConfig → Type 0
HasDistinctNames [] = Unit
HasDistinctNames (service ∷ services) =
    All (λ (other : RuntimeServiceConfig). eq_list service.name other.name ≡ false) services
    × HasDistinctNames services

abbrev pub slots_of : RuntimeServiceConfig → ℕ
slots_of service = if listens service then service_priority_poll_slots service.priority else 0

occurrences-own :
    (name : Text) (n : ℕ) (names : List Text)
    → occurrences name (copies n name ++ names) ≡ n + occurrences name names
occurrences-own name zero names = omega arith
occurrences-own name (suc n) names =
    let rest = occurrences-own name n names in rw (eq_list_refl name) (omega arith)

occurrences-other :
    (name other : Text) (n : ℕ) (names : List Text)
    → eq_list other name ≡ false
    → occurrences name (copies n other ++ names) ≡ occurrences name names
occurrences-other name other zero names h = refl
occurrences-other name other (suc n) names h = rw h (occurrences-other name other n names h)

-- A service puts its name in front of the rest as often as it has slots.
order_step :
    (service : RuntimeServiceConfig) (services : List RuntimeServiceConfig)
    → service_poll_order (service ∷ services)
      ≡ copies (slots_of service) service.name ++ service_poll_order services
unfolding service_poll_order
order_step service services = elim (Bool-cases (listens service)) [
  | inl polled ↦ rw (service_poll_order, polled) refl
  | inr silent ↦ rw (service_poll_order, silent) refl
]

absent :
    (name : Text) (services : List RuntimeServiceConfig)
    → All (λ (other : RuntimeServiceConfig). eq_list name other.name ≡ false) services
    → occurrences name (service_poll_order services) ≡ 0
unfolding service_poll_order
absent name [] h = refl
absent name (service ∷ services) h = rw (order_step service services) (
    occurrences-other name service.name (slots_of service) (service_poll_order services)
      (eq_list_comm service.name name ∙ h.0)
    ∙ absent name services h.1)

abbrev IsServed : List Text → RuntimeServiceConfig → Type 0
IsServed order service = occurrences service.name order ≡ slots_of service

kept_apart :
    (service : RuntimeServiceConfig) (order : List Text) (others : List RuntimeServiceConfig)
    → All (λ (other : RuntimeServiceConfig). eq_list service.name other.name ≡ false) others
    → All (IsServed order) others
    → All (IsServed (copies (slots_of service) service.name ++ order)) others
kept_apart service order [] apart served = tt
kept_apart service order (other ∷ others) apart served = (
  occurrences-other other.name service.name (slots_of service) order apart.0 ∙ served.0,
  kept_apart service order others apart.1 served.1,
)

-- When no two services have the same name, each service that listens comes in the poll order
-- exactly as often as it has slots, and each other one never.
pub service_poll_order-IsServed :
    (services : List RuntimeServiceConfig)
    → HasDistinctNames services
    → All
        (λ (service : RuntimeServiceConfig).
          occurrences service.name (service_poll_order services) ≡ slots_of service)
        services
service_poll_order-IsServed [] distinct = tt
service_poll_order-IsServed (service ∷ services) distinct =
    let none_else = absent service.name services distinct.0 in
    let own = occurrences-own service.name (slots_of service) (service_poll_order services) in
    let first : occurrences service.name
          (copies (slots_of service) service.name ++ service_poll_order services)
        ≡ slots_of service =
      omega arith in
    subst (λ order. All (IsServed order) (service ∷ services)) (sym (order_step service services))
      (
        first,
        kept_apart service (service_poll_order services) services distinct.0
            (service_poll_order-IsServed services distinct.1),
      )
