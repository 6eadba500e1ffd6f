-- ===== src/Protocol/Sound/Values.antt =====
-- What the value decoders guarantee of their results.
use gatherlink.Prelude.{ℕ, ◌≡◌, some, arith}
use gatherlink.Prelude.Int.{ℤ, pos, ◌≤ℤ◌}
use gatherlink.Bytes.{Bytes, read_u32}
use gatherlink.Text.{Text}
use gatherlink.Protocol.Constants.{user_service_id_start}
use gatherlink.Protocol.Frame.{
  ServiceSchedulerPolicy, five, six, PathLatencyStats, InternalClockSyncMessage,
}
use gatherlink.Protocol.Limits.{decode_optional}
use gatherlink.Protocol.Decode.Values.{decode_named, decode_path_latency_stats_value}
use gatherlink.Protocol.Decode.Events.{
  decode_service_scheduler_policy_value, decode_internal_clock_sync_value,
}
use gatherlink.Protocol.RoundTrip.Sends.{IsSix, HasNonzeroMetrics, IsCompleteSync, IsNonzeroMetric}

-- An id of the user range.
abbrev pub IsUserService : ℤ → Type 0
IsUserService id = pos user_service_id_start ≤ℤ id

pub decode_named-range :
    (lowest : ℕ) (value : Bytes) (id : ℤ) (name : Text)
    → decode_named lowest value ≡ some (id, name)
    → pos lowest ≤ℤ id
unfolding decode_named
decode_named-range lowest value id name h = ground arith

pub decode_policy-range :
    (value : Bytes) (id : ℤ) (p : ServiceSchedulerPolicy)
    → decode_service_scheduler_policy_value value ≡ some (id, p)
    → IsUserService id × IsSix p
unfolding decode_service_scheduler_policy_value
decode_policy-range value id (five a b c d e) h = absurd (ground arith)
decode_policy-range value id (six a b c d e f) h = (ground arith, tt)

decode_optional-nonzero : (n : ℕ) → IsNonzeroMetric (decode_optional n)
unfolding decode_optional
decode_optional-nonzero n h = ground arith

pub decode_stats-HasNonzeroMetrics :
    (value : Bytes) (id : ℤ) (s : PathLatencyStats)
    → decode_path_latency_stats_value value ≡ some (id, s)
    → HasNonzeroMetrics s
unfolding decode_path_latency_stats_value
decode_stats-HasNonzeroMetrics value id (a, b, c, d, e, f) h = (
  λ z. ground (arith, decode_optional-nonzero (read_u32 value 2)),
  λ z. ground (arith, decode_optional-nonzero (read_u32 value 6)),
  λ z. ground (arith, decode_optional-nonzero (read_u32 value 10)),
  λ z. ground (arith, decode_optional-nonzero (read_u32 value 14)),
  λ z. ground (arith, decode_optional-nonzero (read_u32 value 18)),
  λ z. ground (arith, decode_optional-nonzero (read_u32 value 22)),
)

pub decode_sync-IsCompleteSync :
    (value : Bytes) (s : InternalClockSyncMessage)
    → decode_internal_clock_sync_value value ≡ some s
    → IsCompleteSync s
unfolding decode_internal_clock_sync_value
decode_sync-IsCompleteSync value s h = ground arith
