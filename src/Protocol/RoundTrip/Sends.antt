-- ===== src/Protocol/RoundTrip/Sends.antt =====
-- What it means that the bytes of one message carry a value, and which values survive the wire.
use gatherlink.Prelude.{ℕ, ◌<◌, ◌≡◌, ◌≢◌, ◌⊎◌, ◌∷◌, ◌++◌, Option, none, some, length}
use gatherlink.Prelude.Int.{ℤ, pos, pos_part}
use gatherlink.Bytes.{Bytes, to_be}
use gatherlink.Protocol.Frame.{
  InternalClockSyncMessage, PathLatencyStats, ServiceSchedulerPolicy, five, six,
}

-- `bs` is one message of type `t`, whose value `decode` reads as `x`.
abbrev pub Sends : {A : Type 0} → ℕ → (Bytes → Option A) → A → Bytes → Type 0
Sends t decode x bs =
    (value : Bytes) × (bs ≡ t ∷ (to_be 2 (length value) ++ value))
    × (length value < 65536)
    × (decode value ≡ some x)

-- The number on the wire for a value that may be missing.
abbrev pub or_zero : Option ℤ → ℕ
or_zero none = 0
or_zero (some x) = pos_part x

-- The wire has no metric of 0: it stands for a missing one.
abbrev pub IsNonzeroMetric : Option ℤ → Type 0
IsNonzeroMetric x = x ≢ some (pos 0)

-- A request, or a response with both of the peer's times.
abbrev pub IsCompleteSync : InternalClockSyncMessage → Type 0
IsCompleteSync s =
    (s.mode ≡ pos 1) ⊎ ((s.mode ≡ pos 2) × (s.receive_us ≢ none) × (s.transmit_us ≢ none))

abbrev pub HasNonzeroMetrics : PathLatencyStats → Type 0
HasNonzeroMetrics (a, b, c, d, e, f) =
    IsNonzeroMetric a
    × IsNonzeroMetric b
    × IsNonzeroMetric c
    × IsNonzeroMetric d
    × IsNonzeroMetric e
    × IsNonzeroMetric f

-- The tuple has its path policy written out.
abbrev pub IsSix : ServiceSchedulerPolicy → Type 0
IsSix (five a b c d e) = ⊥
IsSix (six a b c d e p) = Unit
