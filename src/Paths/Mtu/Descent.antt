-- ===== src/Paths/Mtu/Descent.antt =====
-- How often python/gatherlink/paths/mtu.py can lower the MTU of a path.
use gatherlink.Prelude.{
  ℕ, zero, suc, ◌+◌, ◌*◌, ◌≡◌, true, Option, none, some, Bool-cases, inl, inr, arith,
}
use gatherlink.Prelude.Int.{ℤ, pos, ◌-ℤ◌, ◌≤ℤ◌, ltb_ℤ, max_ℤ, -ℤ_parts}
use gatherlink.Text.{Text}
use gatherlink.Paths.Mtu.{
  PathMtuDowngradeRecommendation, PathStatus, min_gatherlink_frame_mtu, has_symptom, decrement,
  recommend_for_symptom, recommend_path_mtu_downgrade,
}

-- The recommendation is a lower MTU of at least 64, or the least MTU of 64 is in use.
abbrev pub IsLowered : ℤ → PathMtuDowngradeRecommendation → Type 0
IsLowered current r =
    (min_gatherlink_frame_mtu ≤ℤ r.recommended_frame_mtu)
    × (r.recommended_frame_mtu ≤ℤ current)
    × (ltb_ℤ min_gatherlink_frame_mtu current ≡ true → ltb_ℤ r.recommended_frame_mtu current ≡ true)

carrier_lowered :
    (carrier current : ℤ)
    → min_gatherlink_frame_mtu ≤ℤ current
    → ltb_ℤ carrier current ≡ true
    → (min_gatherlink_frame_mtu ≤ℤ max_ℤ min_gatherlink_frame_mtu carrier)
      × (max_ℤ min_gatherlink_frame_mtu carrier ≤ℤ current)
      × (ltb_ℤ min_gatherlink_frame_mtu current ≡ true
          → ltb_ℤ (max_ℤ min_gatherlink_frame_mtu carrier) current ≡ true)
carrier_lowered carrier current h low = (ground arith, ground arith, λ above. ground arith)

symptom_lowered :
    (current by : ℤ)
    → min_gatherlink_frame_mtu ≤ℤ current
    → pos 80 ≤ℤ by
    → (min_gatherlink_frame_mtu ≤ℤ max_ℤ min_gatherlink_frame_mtu (current -ℤ by))
      × (max_ℤ min_gatherlink_frame_mtu (current -ℤ by) ≤ℤ current)
      × (ltb_ℤ min_gatherlink_frame_mtu current ≡ true
          → ltb_ℤ (max_ℤ min_gatherlink_frame_mtu (current -ℤ by)) current ≡ true)
symptom_lowered current by h low =
    let parts = -ℤ_parts current by in (ground arith, ground arith, λ above. ground arith)

decrement_least : (current : ℤ) → pos 80 ≤ℤ decrement current
decrement_least current = ground arith

recommend_for_symptom-IsLowered :
    (path_name : Text) (current : ℤ) (status : PathStatus) {r : PathMtuDowngradeRecommendation}
    → min_gatherlink_frame_mtu ≤ℤ current
    → recommend_for_symptom path_name current status ≡ some r
    → IsLowered current r
recommend_for_symptom-IsLowered path_name current status {r} h made =
    elim (Bool-cases (has_symptom status)) [
      | inr healthy ↦ let made' = rw (recommend_for_symptom, healthy) at made in absurd (cc made')
      | inl ill ↦
          let made' = rw (recommend_for_symptom, ill) at made in
          let e : r.recommended_frame_mtu
              ≡ max_ℤ min_gatherlink_frame_mtu (current -ℤ decrement current) =
            cc made' in
          rw e (symptom_lowered current (decrement current) h (decrement_least current))
    ]

-- When the current MTU is at least 64 and a downgrade is recommended, the new MTU is at least
-- 64 and no more than the current one, and is below it if that is more than 64.
pub recommend_path_mtu_downgrade-IsLowered :
    (path_name : Text) (current : ℤ) (status : PathStatus) (carrier : Option ℤ)
    {r : PathMtuDowngradeRecommendation}
    → min_gatherlink_frame_mtu ≤ℤ current
    → recommend_path_mtu_downgrade path_name current status carrier ≡ some r
    → IsLowered current r
unfolding recommend_path_mtu_downgrade
recommend_path_mtu_downgrade-IsLowered path_name current status none h made =
    recommend_for_symptom-IsLowered path_name current status h made
recommend_path_mtu_downgrade-IsLowered path_name current status (some carrier) {r} h made =
    elim (Bool-cases (ltb_ℤ carrier current)) [
      | inr roomy ↦
          recommend_for_symptom-IsLowered path_name current status h
            (rw (recommend_path_mtu_downgrade, roomy) at made)
      | inl low ↦
          let made' = rw (recommend_path_mtu_downgrade, low) at made in
          let e : r.recommended_frame_mtu ≡ max_ℤ min_gatherlink_frame_mtu carrier = cc made' in
          rw e (carrier_lowered carrier current h low)
    ]

-- The MTU after `n` recommendations have been put in place, one after another.
abbrev pub descend : ℕ → Text → ℤ → PathStatus → Option ℤ → ℤ
descend zero path_name current status carrier = current
descend (suc n) path_name current status carrier =
    elim (recommend_path_mtu_downgrade path_name current status carrier) [
      | none ↦ current
      | some r ↦ descend n path_name r.recommended_frame_mtu status carrier
    ]

reached : (c : ℤ) → min_gatherlink_frame_mtu ≤ℤ c → c ≤ℤ pos 64 → c ≡ min_gatherlink_frame_mtu
reached c h k = ground arith

one_less :
    (c by : ℤ) (n : ℕ)
    → c ≤ℤ pos (80 * suc n + 64)
    → pos 80 ≤ℤ by
    → (min_gatherlink_frame_mtu ≤ℤ max_ℤ min_gatherlink_frame_mtu (c -ℤ by))
      × (max_ℤ min_gatherlink_frame_mtu (c -ℤ by) ≤ℤ pos (80 * n + 64))
one_less c by n h k = let parts = -ℤ_parts c by in (ground arith, ground arith)

-- When a symptom stays, no carrier limits the size, and the MTU lies between 64 and 64 + 80
-- `n`, putting `n` recommendations in place one after another comes down to 64.
pub descend-least :
    (n : ℕ) (path_name : Text) (current : ℤ) (status : PathStatus)
    → has_symptom status ≡ true
    → min_gatherlink_frame_mtu ≤ℤ current
    → current ≤ℤ pos (80 * n + 64)
    → descend n path_name current status none ≡ min_gatherlink_frame_mtu
unfolding recommend_path_mtu_downgrade
descend-least zero path_name current status ill h k = reached current h (omega arith)
descend-least (suc n) path_name current status ill h k =
    let (least, less) = one_less current (decrement current) n k (decrement_least current) in
    let rest =
      descend-least n path_name (max_ℤ min_gatherlink_frame_mtu (current -ℤ decrement current))
        status ill least less in
    rw (descend, recommend_path_mtu_downgrade, ill) rest
