-- ===== src/Protocol/RoundTrip/Quality.antt =====
-- Path latency quality: the codes of the two tables.
use gatherlink.Prelude.{
  ℕ, ◌≡◌, ◌∷◌, ◌++◌, [], Option, none, some, ok, arith, false, not, ◌&&◌, ◌==◌, ◌>>=◌,
}
use gatherlink.Prelude.Int.{ℤ, pos, pos_part}
use gatherlink.Bytes.{Bytes, to_be, append_byte, read_u16}
use gatherlink.Protocol.Frame.{LatencySource, LatencyConfidence}
use gatherlink.Protocol.ControlType
use gatherlink.Protocol.Limits.{
  encode_latency_source, encode_latency_confidence, decode_latency_source,
  decode_latency_confidence,
}
use gatherlink.Protocol.Encode.Paths.{encode_path_latency_quality}
use gatherlink.Protocol.Decode.Values.{decode_path_latency_quality_value, is_none}
use gatherlink.Protocol.RoundTrip.Sends.{Sends}
use gatherlink.Protocol.RoundTrip.Writes.{Writes, guarded, ◌then◌, writes_byte, writes_u16}

source_code : Option LatencySource → ℕ
source_code none = 0
source_code (some LatencySource.reply_rtt_half) = 1
source_code (some LatencySource.clock_synced_one_way) = 2
source_code (some LatencySource.data_traffic_one_way) = 3
source_code (some LatencySource.rejected) = 4
source_code (some LatencySource.peer) = 5
source_code (some (LatencySource.other text)) = 0

confidence_code : Option LatencyConfidence → ℕ
confidence_code none = 0
confidence_code (some LatencyConfidence.coarse) = 1
confidence_code (some LatencyConfidence.warming) = 2
confidence_code (some LatencyConfidence.good) = 3
confidence_code (some LatencyConfidence.rejected) = 4
confidence_code (some (LatencyConfidence.other text)) = 0

-- A known code is read back, and the code 0 only stands for None.
writes_source :
    (s : Option LatencySource)
    → Writes (encode_latency_source s >>= append_byte) (source_code s ∷ []) (
        (decode_latency_source (source_code s) ≡ s)
        × ((is_none s && not (source_code s == 0)) ≡ false))
unfolding encode_latency_source append_byte source_code decode_latency_source
writes_source s = record { at = λ z h. (ground arith, (ground arith, ground arith)) }

writes_confidence :
    (c : Option LatencyConfidence)
    → Writes (encode_latency_confidence c >>= append_byte) (confidence_code c ∷ []) (
        (decode_latency_confidence (confidence_code c) ≡ c)
        × ((is_none c && not (confidence_code c == 0)) ≡ false))
unfolding encode_latency_confidence append_byte confidence_code decode_latency_confidence
writes_confidence c = record { at = λ z h. (ground arith, (ground arith, ground arith)) }

quality_bytes : ℤ → Option LatencySource → Option LatencyConfidence → Bytes
quality_bytes id s c = to_be 2 (pos_part id) ++ (source_code s ∷ [] ++ confidence_code c ∷ [])

pub encode_path_latency_quality-Sends :
    (id : ℤ) (s : Option LatencySource) (c : Option LatencyConfidence) {bs : Bytes}
    → encode_path_latency_quality (id, (s, c)) ≡ ok bs
    → Sends ControlType.path_latency_quality decode_path_latency_quality_value (id, (s, c)) bs
unfolding encode_path_latency_quality quality_bytes
encode_path_latency_quality-Sends id s c {bs} h =
    let w = guarded _ _ (
      writes_byte (pos ControlType.path_latency_quality)
      then writes_u16 (pos 4)
      then writes_u16 id
      then writes_source s
      then writes_confidence c) in
    let (e, facts) = w.at bs h in
    (
      quality_bytes id s c,
      unfold to_be in e,
      unfold to_be in omega arith,
      unfold decode_path_latency_quality_value to_be read_u16 in ground arith,
    )
