-- ===== src/Paths/Mtu/Bounds.antt =====
-- What python/gatherlink/paths/mtu.py promises of the MTU of a path.
use gatherlink.Prelude.{
  refl, ◌≢◌, subst, sym, none, true, false, Bool-cases, ◌≡◌, ◌⊎◌, inl, inr, Option, some, arith,
}
use gatherlink.Prelude.Int.{ℤ, pos, ◌-ℤ◌, ◌≤ℤ◌, eq_ℤ, eq_ℤ_iff, ltb_ℤ, max_ℤ, min_ℤ, -ℤ_parts}
use gatherlink.Text.{Text}
use gatherlink.Paths.Mtu.{
  PathMtuObservation, min_gatherlink_frame_mtu, link_mtu_or_safe, min_ceiling, observe_path_mtu,
}

-- `mtu` is a ceiling, or so small that the least frame is used.
abbrev pub IsCeiling : ℤ → PathMtuObservation → Type 0
IsCeiling mtu o = (o.frame_mtu ≤ℤ mtu) ⊎ (o.frame_mtu ≡ min_gatherlink_frame_mtu)

-- `detected` is the MTU that the platform reads, if any, where 0 counts as none.
pub record IsSafeMtu (detected : Option ℤ) (configured header : ℤ) (carrier : Option ℤ)
    (o : PathMtuObservation) : Type 0 where
  pub least : min_gatherlink_frame_mtu ≤ℤ o.frame_mtu
  pub below_configured : IsCeiling configured o
  pub below_detected : (mtu : ℤ) → detected ≡ some mtu → mtu ≢ pos 0 → IsCeiling mtu o
  pub below_carrier : (size : ℤ) → carrier ≡ some size → IsCeiling size o
  pub reached :
      (o.frame_mtu ≡ configured)
      ⊎ (detected ≡ some o.frame_mtu)
      ⊎ (carrier ≡ some o.frame_mtu)
      ⊎ (o.frame_mtu ≡ min_gatherlink_frame_mtu)
  pub payload : header ≤ℤ o.frame_mtu → o.payload_mtu ≡ o.frame_mtu -ℤ header
  pub no_payload : o.frame_mtu ≤ℤ header → o.payload_mtu ≡ pos 0

frame_ceiling : (a b : ℤ) → (max_ℤ a b ≤ℤ a) ⊎ (max_ℤ a b ≡ b)
frame_ceiling a b = ground arith

ceiling_trans : (f a c m : ℤ) → (f ≤ℤ a) ⊎ (f ≡ m) → a ≤ℤ c → (f ≤ℤ c) ⊎ (f ≡ m)
ceiling_trans f a c m (inl h) k = inl (omega arith)
ceiling_trans f a c m (inr h) k = inr h

max_least : (a b : ℤ) → b ≤ℤ max_ℤ a b
max_least a b = ground arith

min_left : (a b : ℤ) → min_ℤ a b ≤ℤ a
min_left a b = ground arith

min_right : (a b : ℤ) → min_ℤ a b ≤ℤ b
min_right a b = ground arith

le_trans : (a b c : ℤ) → a ≤ℤ b → b ≤ℤ c → a ≤ℤ c
le_trans a b c h k = omega arith

min_ceiling-configured : (c l : ℤ) (carrier : Option ℤ) → min_ceiling c l carrier ≤ℤ c
min_ceiling-configured c l none = min_left c l
min_ceiling-configured c l (some s) =
    le_trans (min_ℤ (min_ℤ c l) s) (min_ℤ c l) c (min_left (min_ℤ c l) s) (min_left c l)

min_ceiling-link : (c l : ℤ) (carrier : Option ℤ) → min_ceiling c l carrier ≤ℤ l
min_ceiling-link c l none = min_right c l
min_ceiling-link c l (some s) =
    le_trans (min_ℤ (min_ℤ c l) s) (min_ℤ c l) l (min_left (min_ℤ c l) s) (min_right c l)

min_ceiling-carrier :
    (c l s : ℤ) (carrier : Option ℤ) → carrier ≡ some s → min_ceiling c l carrier ≤ℤ s
min_ceiling-carrier c l s carrier h = rw h (min_right (min_ℤ c l) s)

link_mtu_or_safe-detected :
    (detected : Option ℤ) (c mtu : ℤ)
    → detected ≡ some mtu
    → mtu ≢ pos 0
    → link_mtu_or_safe detected c ≡ mtu
link_mtu_or_safe-detected none c mtu h n = absurd (cc h)
link_mtu_or_safe-detected (some d) c mtu h n = elim (Bool-cases (eq_ℤ d (pos 0))) [
  | inl zero_read ↦
      let e = (eq_ℤ_iff d (pos 0)).0 zero_read in
      let same : d ≡ mtu = cc h in absurd (n (cc (e, same)))
  | inr read ↦ rw (link_mtu_or_safe, read) (cc h)
]

-- What is not read of the link is no lower than what is configured.
link_origin :
    (detected : Option ℤ) (c : ℤ)
    → (detected ≡ some (link_mtu_or_safe detected c)) ⊎ (c ≤ℤ link_mtu_or_safe detected c)
link_origin none c = inr (ground arith)
link_origin (some d) c = elim (Bool-cases (eq_ℤ d (pos 0))) [
  | inl zero_read ↦ rw (link_mtu_or_safe, zero_read) (inr (ground arith))
  | inr read ↦ rw (link_mtu_or_safe, read) (inl refl)
]

min_origin : (a b : ℤ) → (min_ℤ a b ≡ a) ⊎ ((min_ℤ a b ≡ b) × (ltb_ℤ b a ≡ true))
min_origin a b = ground arith

not_below : (a b : ℤ) → a ≤ℤ b → ltb_ℤ b a ≡ false
not_below a b h = ground arith

abbrev IsOrigin : Option ℤ → ℤ → Option ℤ → ℤ → Type 0
IsOrigin detected c carrier v =
    (v ≡ c) ⊎ (detected ≡ some v) ⊎ (carrier ≡ some v) ⊎ (v ≡ min_gatherlink_frame_mtu)

local_origin :
    (detected : Option ℤ) (c : ℤ)
    → (min_ℤ c (link_mtu_or_safe detected c) ≡ c)
      ⊎ (detected ≡ some (min_ℤ c (link_mtu_or_safe detected c)))
local_origin detected c = elim (min_origin c (link_mtu_or_safe detected c)) [
  | inl e ↦ inl e
  | inr (e, low) ↦ elim (link_origin detected c) [
    | inl read ↦ inr (cc (read, e))
    | inr h ↦ absurd (cc (low, not_below c (link_mtu_or_safe detected c) h))
  ]
]

min_ceiling-IsOrigin :
    (detected : Option ℤ) (c : ℤ) (carrier : Option ℤ)
    → IsOrigin detected c carrier (min_ceiling c (link_mtu_or_safe detected c) carrier)
min_ceiling-IsOrigin detected c none = elim (local_origin detected c) [
  | inl e ↦ inl e
  | inr e ↦ inr (inl e)
]
min_ceiling-IsOrigin detected c (some s) =
    elim (min_origin (min_ℤ c (link_mtu_or_safe detected c)) s) [
      | inr (e, low) ↦ inr (inr (inl (cc e)))
      | inl e ↦ elim (local_origin detected c) [
        | inl same ↦ inl (cc (e, same))
        | inr read ↦ inr (inl (cc (e, read)))
      ]
    ]

max_origin : (a b : ℤ) → (max_ℤ a b ≡ a) ⊎ (max_ℤ a b ≡ b)
max_origin a b = ground arith

max_first : (a b : ℤ) → b ≤ℤ a → max_ℤ a b ≡ a
max_first a b h = ground arith

max_second : (a b : ℤ) → a ≤ℤ b → max_ℤ a b ≡ b
max_second a b h = ground arith

difference_sign : (f h : ℤ) → (h ≤ℤ f → pos 0 ≤ℤ f -ℤ h) × (f ≤ℤ h → f -ℤ h ≤ℤ pos 0)
difference_sign f h = let parts = -ℤ_parts f h in (λ k. omega arith, λ k. omega arith)

-- The observed frame MTU is at least 64, is no more than the configured MTU, the MTU that was
-- detected on the link (0 counts as none) and the carrier's limit unless it is exactly 64, and
-- is one of these or 64; the payload is exactly the frame without its header, or 0 when the
-- header is longer.
pub observe_path_mtu-IsSafeMtu :
    (detected : Option ℤ) (configured header : ℤ) (carrier : Option ℤ) (now : Text)
    → IsSafeMtu detected configured header carrier
        (observe_path_mtu detected configured header carrier now)
unfolding observe_path_mtu
observe_path_mtu-IsSafeMtu detected configured header carrier now =
    let link = link_mtu_or_safe detected configured in
    let low = min_ceiling configured link carrier in
    let frame = max_ℤ low min_gatherlink_frame_mtu in
    let below = frame_ceiling low min_gatherlink_frame_mtu in
    let (more, less) = difference_sign frame header in
    record {
      least = max_least low min_gatherlink_frame_mtu;
      below_configured =
          ceiling_trans frame low configured min_gatherlink_frame_mtu below
            (min_ceiling-configured configured link carrier);
      below_detected = λ mtu h n.
          subst (λ (m : ℤ). (frame ≤ℤ m) ⊎ (frame ≡ min_gatherlink_frame_mtu))
            (link_mtu_or_safe-detected detected configured mtu h n)
            (ceiling_trans frame low link min_gatherlink_frame_mtu below
              (min_ceiling-link configured link carrier));
      below_carrier = λ size h.
          ceiling_trans frame low size min_gatherlink_frame_mtu below
            (min_ceiling-carrier configured link size carrier h);
      reached = elim (max_origin low min_gatherlink_frame_mtu) [
        | inl e ↦
            subst (IsOrigin detected configured carrier) (sym e)
              (min_ceiling-IsOrigin detected configured carrier)
        | inr e ↦ inr (inr (inr e))
      ];
      payload = λ room. max_first (frame -ℤ header) (pos 0) (more room);
      no_payload = λ full. max_second (frame -ℤ header) (pos 0) (less full);
    }
