-- ===== src/Protocol/Limits.antt =====
-- The range checks and the code tables that python/gatherlink/protocol.py shares between messages.
use gatherlink.Prelude.{
  ℕ, Bool, true, ◌&&◌, ◌||◌, false, Option, none, some, ◌==◌, if◌then◌else◌, Result, ok, err,
  value_error,
}
use gatherlink.Prelude.Int.{ℤ, pos, ltb_ℤ, leb_ℤ}
use gatherlink.Protocol.Constants.{u16_max, u32_max, u64_max}
use gatherlink.Protocol.Frame.{LatencySource, LatencyConfidence}

-- `value < low or value > high`
abbrev pub is_outside : ℕ → ℕ → ℤ → Bool
is_outside low high value = ltb_ℤ value (pos low) || ltb_ℤ (pos high) value

unfoldable pub optional_u64 : Option ℤ → Result ℤ
optional_u64 none = ok (pos 0)
optional_u64 (some value) =
    if leb_ℤ value (pos 0) || ltb_ℤ (pos u64_max) value
    then err (value_error "path capacity value out of range")
    else ok value

unfoldable pub optional_u32 : Option ℤ → Result ℤ
optional_u32 none = ok (pos 0)
optional_u32 (some value) =
    if leb_ℤ value (pos 0) || ltb_ℤ (pos u32_max) value
    then err (value_error "path latency value out of range")
    else ok value

unfoldable pub optional_metric_u32 : Option ℤ → Result ℤ
optional_metric_u32 none = ok (pos 0)
optional_metric_u32 (some value) =
    if is_outside 0 u32_max value
    then err (value_error "path metric value out of range")
    else ok value

unfoldable pub counter_u32 : ℤ → Result ℤ
counter_u32 value =
    if is_outside 0 u32_max value
    then err (value_error "path pressure counter value out of range")
    else ok value

unfoldable pub optional_u16 : Option ℤ → Result ℤ
optional_u16 none = ok (pos 0)
optional_u16 (some value) =
    if leb_ℤ value (pos 0) || ltb_ℤ (pos u16_max) value
    then err (value_error "path MTU value out of range")
    else ok value

-- `value or None`; the three widths share one body.
unfoldable pub decode_optional : ℕ → Option ℤ
decode_optional value = if value == 0 then none else some (pos value)

unfoldable pub valid_mtu_pair : Option ℤ → Option ℤ → Bool
valid_mtu_pair none none = true
valid_mtu_pair none (some frame_mtu) = false
valid_mtu_pair (some link_mtu) none = false
valid_mtu_pair (some link_mtu) (some frame_mtu) =
    ltb_ℤ (pos 0) frame_mtu && leb_ℤ frame_mtu link_mtu

unfoldable pub encode_latency_source : Option LatencySource → Result ℤ
encode_latency_source none = ok (pos 0)
encode_latency_source (some LatencySource.reply_rtt_half) = ok (pos 1)
encode_latency_source (some LatencySource.clock_synced_one_way) = ok (pos 2)
encode_latency_source (some LatencySource.data_traffic_one_way) = ok (pos 3)
encode_latency_source (some LatencySource.rejected) = ok (pos 4)
encode_latency_source (some LatencySource.peer) = ok (pos 5)
encode_latency_source (some (LatencySource.other text)) =
    err (value_error "path latency source value out of range")

-- `.get(value)` on the inverted table: 0 maps to None, as an unknown code does.
unfoldable pub decode_latency_source : ℕ → Option LatencySource
decode_latency_source value =
    if value == 1
    then some LatencySource.reply_rtt_half
    else if value == 2
    then some LatencySource.clock_synced_one_way
    else if value == 3
    then some LatencySource.data_traffic_one_way
    else if value == 4
    then some LatencySource.rejected
    else if value == 5
    then some LatencySource.peer
    else none

unfoldable pub encode_latency_confidence : Option LatencyConfidence → Result ℤ
encode_latency_confidence none = ok (pos 0)
encode_latency_confidence (some LatencyConfidence.coarse) = ok (pos 1)
encode_latency_confidence (some LatencyConfidence.warming) = ok (pos 2)
encode_latency_confidence (some LatencyConfidence.good) = ok (pos 3)
encode_latency_confidence (some LatencyConfidence.rejected) = ok (pos 4)
encode_latency_confidence (some (LatencyConfidence.other text)) =
    err (value_error "path latency confidence value out of range")

unfoldable pub decode_latency_confidence : ℕ → Option LatencyConfidence
decode_latency_confidence value =
    if value == 1
    then some LatencyConfidence.coarse
    else if value == 2
    then some LatencyConfidence.warming
    else if value == 3
    then some LatencyConfidence.good
    else if value == 4
    then some LatencyConfidence.rejected
    else none
