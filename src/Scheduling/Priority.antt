-- ===== src/Scheduling/Priority.antt =====
-- python/gatherlink/scheduling/service_priority.py: in which order the services are polled, and how
-- much of each. A service is what the code reads of it.
pub mod Fair
pub mod Default
use gatherlink.Prelude.{
  ℕ, zero, suc, Bool, true, false, not, ◌&&◌, ◌||◌, List, [], ◌∷◌, ◌++◌, Option, none, some,
  if◌then◌else◌, map,
}
use gatherlink.Prelude.Int.{ℤ, pos, eq_ℤ, ltb_ℤ}
use gatherlink.Prelude.TextDicts.{TextDict, lookup_text}
use gatherlink.Text.{Text}

-- `ServicePriority`
pub data ServicePriority : Type 0 where
  bulk normal high critical : ServicePriority

-- `SERVICE_PRIORITY_POLL_SLOTS`
abbrev pub service_priority_poll_slots : ServicePriority → ℕ
service_priority_poll_slots bulk = 1
service_priority_poll_slots normal = 2
service_priority_poll_slots high = 3
service_priority_poll_slots critical = 4

pub record RuntimeServiceConfig : Type 0 where
  pub name : Text
  pub listen : Option Text
  pub priority : ServicePriority
  pub scheduler_poll_batch_packets : ℤ

-- `bool(service.listen)`: an empty address is no address.
abbrev pub listens : RuntimeServiceConfig → Bool
listens service = elim service.listen [ none ↦ false | some [] ↦ false | some (_ ∷ _) ↦ true ]

abbrev pub copies {ℓ} : {A : Type ℓ} → ℕ → A → List A
copies zero x = []
copies (suc n) x = x ∷ copies n x

unfoldable pub service_poll_order : List RuntimeServiceConfig → List Text
service_poll_order [] = []
service_poll_order (service ∷ services) =
    let rest = service_poll_order services in
    if not (listens service)
    then rest
    else copies (service_priority_poll_slots service.priority) service.name ++ rest

-- `mapping.get(name) or default`
abbrev pub value_or : TextDict ℤ → Text → ℤ → ℤ
value_or mapping name default = elim (lookup_text name mapping) [
  | none ↦ default
  | some value ↦ if eq_ℤ value (pos 0) then default else value
]

abbrev pub packet_budget_of : ℤ → TextDict ℤ → RuntimeServiceConfig → ℤ
packet_budget_of batch_size overrides service = value_or overrides service.name (
    if eq_ℤ service.scheduler_poll_batch_packets (pos 0)
    then batch_size
    else service.scheduler_poll_batch_packets)

unfoldable pub service_poll_plan : List RuntimeServiceConfig → ℤ → TextDict ℤ → List (Text × ℤ)
service_poll_plan [] batch_size overrides = []
service_poll_plan (service ∷ services) batch_size overrides =
    let rest = service_poll_plan services batch_size overrides in
    if not (listens service)
    then rest
    else copies (service_priority_poll_slots service.priority)
        (service.name, packet_budget_of batch_size overrides service)
      ++ rest

unfoldable pub service_budget_plan :
    List RuntimeServiceConfig → ℤ → TextDict ℤ → TextDict ℤ → List (Text × ℤ × ℤ)
service_budget_plan [] batch_size packets bytes = []
service_budget_plan (service ∷ services) batch_size packets bytes =
    let rest = service_budget_plan services batch_size packets bytes in
    if not (listens service)
    then rest
    else copies (service_priority_poll_slots service.priority) (
      service.name,
      packet_budget_of batch_size packets service,
      value_or bytes service.name (pos 0),
    )
      ++ rest

-- `any(... for service in services)`
abbrev pub uses_service_drain_plan : List RuntimeServiceConfig → TextDict ℤ → Bool
uses_service_drain_plan [] overrides = false
uses_service_drain_plan (service ∷ services) overrides =
    listens service
      && (not (eq_ℤ service.scheduler_poll_batch_packets (pos 0))
          || ltb_ℤ (pos 0) (value_or overrides service.name (pos 0)))
    || uses_service_drain_plan services overrides

abbrev pub uses_service_budget_plan : List RuntimeServiceConfig → TextDict ℤ → TextDict ℤ → Bool
uses_service_budget_plan [] packets bytes = false
uses_service_budget_plan (service ∷ services) packets bytes =
    listens service
      && (not (eq_ℤ service.scheduler_poll_batch_packets (pos 0))
          || ltb_ℤ (pos 0) (value_or packets service.name (pos 0))
          || ltb_ℤ (pos 0) (value_or bytes service.name (pos 0)))
    || uses_service_budget_plan services packets bytes
