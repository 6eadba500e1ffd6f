-- ===== src/Security/Sessions/Rotation.antt =====
-- `plan_session_rotation` of python/gatherlink/security/sessions.py, and the index of a replacement.
pub mod Policy
use gatherlink.Prelude.{
  ℕ, ◌+◌, ◌<◌, ◌≤◌, ◌≡◌, ◌≢◌, ◌↔◌, ◌⊎◌, inl, inr, refl, Bool, true, false, not, ◌||◌, ◌&&◌,
  overflow_error, Option, none, some, Result, ok, err, value_error, String, if◌then◌else◌, ltb,
  eq_list, ◌>>=◌, ◌>>◌, arith, Bool-cases,
}
use gatherlink.Prelude.Int.{ℤ, pos, negsuc, leb_ℤ, ltb_ℤ, eq_ℤ, eq_ℤ_iff, ◌+ℤ◌, ◌-ℤ◌, ◌*ℤ◌, ◌≤ℤ◌}
use gatherlink.Text.{Text}
use gatherlink.Security.Envelope.{or_default}
use gatherlink.Security.Sessions.{
  AuthenticatedSessionPlan, needs_rekey, seconds, min_receiver_index, max_receiver_index,
}

pub data Action : Type 0 where
  keep rekey reject expired : Action

pub record SessionRotationDecision : Type 0 where
  pub action : Action
  pub reason : String
  pub current_receiver_index : ℤ
  pub next_receiver_index : Option ℤ
  pub overlap_until : Option ℤ

abbrev pub should_rekey : SessionRotationDecision → Bool
should_rekey d = elim d.action [ rekey ↦ true | _ ↦ false ]

abbrev pub fail_closed : SessionRotationDecision → Bool
fail_closed d = elim d.action [ reject ↦ true | expired ↦ true | _ ↦ false ]

-- A decision with the two optional fields left at None.
abbrev pub plain_decision : Action → String → ℤ → SessionRotationDecision
plain_decision action reason index = record {
  action = action;
  reason = reason;
  current_receiver_index = index;
  next_receiver_index = none;
  overlap_until = none;
}

-- `drawn` is what `randbelow(MAX_RECEIVER_INDEX)` returns.
abbrev pub generate_receiver_index : ℕ → ℤ
generate_receiver_index drawn = pos (drawn + min_receiver_index)

unfoldable pub next_receiver_index_after : ℤ → ℤ
next_receiver_index_after value =
    if leb_ℤ (pos max_receiver_index) value then pos min_receiver_index else value +ℤ pos 1

-- The index of the replacement: the one that the caller chose or a random one, but not the current.
abbrev pub replacement_index : Option ℤ → ℕ → ℤ → ℤ
replacement_index chosen drawn current =
    let index = or_default chosen (generate_receiver_index drawn) in
    if eq_ℤ index current then next_receiver_index_after index else index

-- `observed is not None and observed != expected`
abbrev pub disagrees_int : Option ℤ → ℤ → Bool
disagrees_int none expected = false
disagrees_int (some observed) expected = not (eq_ℤ observed expected)

abbrev pub disagrees_text : Option Text → Text → Bool
disagrees_text none expected = false
disagrees_text (some observed) expected = not (eq_list observed expected)

-- The margin before the expiry has begun.
abbrev pub in_margin : AuthenticatedSessionPlan → ℤ → ℤ → Bool
in_margin current now margin = leb_ℤ (current.expires_at -ℤ seconds margin) now

abbrev pub volume_rekey : AuthenticatedSessionPlan → ℤ → ℤ → Bool
volume_rekey current packets bytes_transferred =
    leb_ℤ current.rekey_after_packets packets || leb_ℤ current.rekey_after_bytes bytes_transferred

-- The moments that a datetime can hold: the years 1 to 9999. A sum or difference outside them
-- raises an OverflowError, and so does every longer timedelta.
unfoldable pub is_datetime : ℤ → Bool
is_datetime moment =
    leb_ℤ (negsuc 62135596799999999) moment && leb_ℤ moment (pos 253402300799999999)

-- The replacement that is asked for.
abbrev pub ask_replacement :
    AuthenticatedSessionPlan → ℤ → ℤ → ℤ → Option ℤ → ℕ → SessionRotationDecision
ask_replacement current now margin overlap chosen drawn = record {
  action = rekey;
  reason =
      if in_margin current now margin
      then "session is within rekey margin"
      else "session volume limit reached";
  current_receiver_index = current.receiver_index;
  next_receiver_index = some (replacement_index chosen drawn current.receiver_index);
  overlap_until = some (now +ℤ seconds overlap);
}

-- The last part: the session is valid and neither number of seconds is negative.
abbrev pub rotate_valid :
    AuthenticatedSessionPlan → ℤ → ℤ → ℤ → ℤ → ℤ → Option ℤ → ℕ → Result SessionRotationDecision
rotate_valid current now packets bytes_transferred margin overlap chosen drawn =
    if not (is_datetime (current.expires_at -ℤ seconds margin))
    then err overflow_error
    else if not (in_margin current now margin || volume_rekey current packets bytes_transferred)
    then ok
        (plain_decision keep "session remains within time and volume limits" current.receiver_index)
    else if not (is_datetime (now +ℤ seconds overlap))
    then err overflow_error
    else ok (ask_replacement current now margin overlap chosen drawn)

-- The arguments stand in the source's order, with the random draw at the end.
unfoldable pub plan_session_rotation :
    AuthenticatedSessionPlan
    → ℤ
    → ℤ
    → ℤ
    → Option ℤ
    → Option Text
    → ℤ
    → ℤ
    → Option ℤ
    → ℕ
    → Result SessionRotationDecision
unfolding next_receiver_index_after
plan_session_rotation current now packets bytes_transferred generation peer margin overlap chosen
      drawn =
    if disagrees_int generation current.topology_generation
    then ok (
        plain_decision reject "peer topology generation disagrees with local session"
          current.receiver_index)
    else if disagrees_text peer current.peer_node_id
    then ok
        (plain_decision reject "peer identity disagrees with local session" current.receiver_index)
    else if leb_ℤ current.expires_at now
    then ok (
        plain_decision expired "session expired before replacement completed"
          current.receiver_index)
    else if ltb_ℤ margin (pos 0)
    then err (value_error "rekey margin must be zero or greater")
    else if ltb_ℤ overlap (pos 0)
    then err (value_error "overlap seconds must be zero or greater")
    else rotate_valid current now packets bytes_transferred margin overlap chosen drawn

pub next_receiver_index_after-differs : (i : ℤ) → next_receiver_index_after i ≢ i
unfolding next_receiver_index_after ◌+ℤ◌
next_receiver_index_after-differs i h = ground arith

pub next_receiver_index_after-range :
    (i : ℤ)
    → pos min_receiver_index ≤ℤ i
    → (pos min_receiver_index ≤ℤ next_receiver_index_after i)
      × (next_receiver_index_after i ≤ℤ pos max_receiver_index)
unfolding next_receiver_index_after ◌+ℤ◌
next_receiver_index_after-range i h = ground arith

abbrev pub InRange : ℤ → Type 0
InRange i = (pos min_receiver_index ≤ℤ i) × (i ≤ℤ pos max_receiver_index)

-- An index that the caller may leave open.
abbrev pub InRangeIfAny : Option ℤ → Type 0
InRangeIfAny none = Unit
InRangeIfAny (some i) = InRange i

after :
    (i current : ℤ)
    → InRange i
    → ((if eq_ℤ i current then next_receiver_index_after i else i) ≢ current)
      × InRange (if eq_ℤ i current then next_receiver_index_after i else i)
after i current r = elim (Bool-cases (eq_ℤ i current)) [
  | inl same ↦
      let e = (eq_ℤ_iff i current).0 same in
      rw same (
        (λ h. next_receiver_index_after-differs i (cc (h, e))),
        next_receiver_index_after-range i r.0,
      )
  | inr other ↦ rw other ((λ e. absurd (cc ((eq_ℤ_iff i current).1 e, other))), r)
]

pub replacement_index-InRange :
    (chosen : Option ℤ) (drawn : ℕ) (current : ℤ)
    → drawn < max_receiver_index
    → InRangeIfAny chosen
    → (replacement_index chosen drawn current ≢ current)
      × InRange (replacement_index chosen drawn current)
replacement_index-InRange none drawn current l r =
    after (generate_receiver_index drawn) current (omega arith, omega arith)
replacement_index-InRange (some i) drawn current l r = after i current r
