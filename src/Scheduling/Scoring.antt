-- ===== src/Scheduling/Scoring.antt =====
-- python/gatherlink/scheduling/scoring.py: the health, the score and the weight of a path. The metrics
-- are what the code reads of them. The rounded quotient of two numbers, which the code takes in floating
-- point, is the parameter `rounded`.
pub mod Bounds
use gatherlink.Prelude.{
  ℕ, Bool, true, false, not, ◌||◌, List, [], ◌∷◌, ◌++◌, Option, none, some, String, if◌then◌else◌,
}
use gatherlink.Prelude.Int.{ℤ, pos, ◌+ℤ◌, ◌-ℤ◌, ◌*ℤ◌, leb_ℤ, ltb_ℤ, eq_ℤ, max_ℤ, min_ℤ, floor_div}
use gatherlink.Text.{Text}

abbrev pub min_path_weight : ℤ
min_path_weight = pos 1

abbrev pub max_path_weight : ℤ
max_path_weight = pos 65535

abbrev pub default_capacity_bps : ℤ
default_capacity_bps = pos 1000000

-- These three divide, and are positive.
abbrev pub default_latency_us : ℕ
default_latency_us = 50000

abbrev pub queue_byte_penalty_step : ℕ
queue_byte_penalty_step = 65536

abbrev pub jitter_penalty_step_us : ℕ
jitter_penalty_step_us = 10000

abbrev pub loss_ppm_scale : ℤ
loss_ppm_scale = pos 1000000

abbrev pub queue_packet_penalty : ℤ
queue_packet_penalty = pos 16

abbrev pub stale_control_down_us : ℤ
stale_control_down_us = pos 120000000

abbrev pub stale_control_degraded_us : ℤ
stale_control_degraded_us = pos 30000000

abbrev pub high_loss_ppm : ℤ
high_loss_ppm = pos 50000

abbrev pub high_queue_packets : ℤ
high_queue_packets = pos 256

abbrev pub high_queue_age_us : ℤ
high_queue_age_us = pos 5000000

abbrev pub high_reorder_depth_packets : ℤ
high_reorder_depth_packets = pos 128

abbrev pub high_in_flight_packets : ℤ
high_in_flight_packets = pos 512

abbrev pub high_reorder_buffer_packets : ℤ
high_reorder_buffer_packets = pos 128

pub data PathHealth : Type 0 where
  alive degraded down : PathHealth

pub record ScoredMetrics : Type 0 where
  pub path_name : Text
  pub tx_capacity_bps : Option ℤ
  pub tx_latency_current_us : Option ℤ
  pub tx_latency_mean_us : Option ℤ
  pub rx_latency_current_us : Option ℤ
  pub rx_latency_mean_us : Option ℤ
  pub loss_ppm : ℤ
  pub queue_depth_packets : ℤ
  pub queue_depth_bytes : ℤ
  pub queue_oldest_age_us : ℤ
  pub send_failures : ℤ
  pub receive_gaps : ℤ
  pub reorder_depth_packets : ℤ
  pub local_drops : ℤ
  pub scheduler_in_flight_packets : ℤ
  pub reorder_buffer_packets : ℤ
  pub stale_control_age_us : ℤ

pub record PathScore : Type 0 where
  pub path_name : Text
  pub health : PathHealth
  pub score : ℤ
  pub weight : ℤ
  pub capacity_confidence_ppm : ℤ
  pub reasons : List String

abbrev pub or_else : Option ℤ → Option ℤ → Option ℤ
or_else (some v) other = some v
or_else none other = other

-- `scheduler_latency_us`
abbrev pub scheduler_latency_us : ScoredMetrics → Option ℤ
scheduler_latency_us m =
    or_else m.tx_latency_mean_us
      (or_else m.tx_latency_current_us (or_else m.rx_latency_mean_us m.rx_latency_current_us))

unfoldable pub clamp_weight : ℤ → ℤ
clamp_weight value = min_ℤ max_path_weight (max_ℤ min_path_weight value)

abbrev pub latency_penalty : Option ℤ → ℤ
latency_penalty none = pos 0
latency_penalty (some latency) =
    floor_div (max_ℤ (pos 0) (latency -ℤ pos default_latency_us)) default_latency_us

abbrev pub loss_penalty : ℤ → ℤ
loss_penalty loss_ppm = floor_div (max_ℤ (pos 0) (min_ℤ loss_ppm loss_ppm_scale)) 10000

abbrev pub queue_penalty : ℤ → ℤ → ℤ
queue_penalty packets bytes =
    max_ℤ (pos 0) packets *ℤ queue_packet_penalty
    +ℤ floor_div (max_ℤ (pos 0) bytes) queue_byte_penalty_step

abbrev pub jitter_penalty : Option ℤ → ℤ
jitter_penalty none = pos 0
jitter_penalty (some jitter) = floor_div (max_ℤ (pos 0) jitter) jitter_penalty_step_us

abbrev pub when : Bool → ℤ → ℤ
when test cost = if test then cost else pos 0

-- The confidence before it is kept in its range.
abbrev pub raw_confidence : ScoredMetrics → ℤ
raw_confidence m =
    pos 1000000
    -ℤ when (elim m.tx_capacity_bps [ none ↦ true | some capacity ↦ false ]) (pos 250000)
    -ℤ when (leb_ℤ stale_control_degraded_us m.stale_control_age_us) (pos 350000)
    -ℤ min_ℤ (pos 250000) (m.loss_ppm *ℤ pos 2)
    -ℤ min_ℤ (pos 150000) (m.queue_depth_packets *ℤ pos 250)
    -ℤ min_ℤ (pos 150000) m.local_drops
    -ℤ min_ℤ (pos 100000) (m.send_failures *ℤ pos 10000)

unfoldable pub capacity_confidence_ppm : ScoredMetrics → ℤ
capacity_confidence_ppm m = max_ℤ (pos 0) (min_ℤ (pos 1000000) (raw_confidence m))

-- `if test: score -= cost; reasons.append(reason)`
abbrev pub penalize : Bool → ℤ → String → ℤ × List String → ℤ × List String
penalize test cost reason (score, reasons) =
    if test then (score -ℤ cost, reasons ++ reason ∷ []) else (score, reasons)

-- `if cost: ...`
abbrev pub penalize_cost : ℤ → String → ℤ × List String → ℤ × List String
penalize_cost cost reason running = penalize (not (eq_ℤ cost (pos 0))) cost reason running

abbrev pub is_degraded : ScoredMetrics → Bool
is_degraded m =
    leb_ℤ stale_control_degraded_us m.stale_control_age_us
    || leb_ℤ high_loss_ppm m.loss_ppm
    || leb_ℤ high_queue_packets m.queue_depth_packets
    || leb_ℤ high_queue_age_us m.queue_oldest_age_us
    || ltb_ℤ (pos 0) m.local_drops
    || ltb_ℤ (pos 0) m.send_failures
    || leb_ℤ high_in_flight_packets m.scheduler_in_flight_packets
    || leb_ℤ high_reorder_buffer_packets m.reorder_buffer_packets

abbrev pub health_of : ScoredMetrics → PathHealth
health_of m =
    if leb_ℤ stale_control_down_us m.stale_control_age_us
    then down
    else if is_degraded m
    then degraded
    else alive

abbrev pub weight_for : PathHealth → ℤ → ℤ
weight_for alive weight = weight
weight_for degraded weight = max_ℤ (pos 1) (floor_div weight 2)
weight_for down weight = pos 1

abbrev pub score_for : PathHealth → ℤ → ℤ
score_for alive score = score
score_for degraded score = score
score_for down score = min_ℤ score (pos 0)

abbrev pub or_healthy : List String → List String
or_healthy [] = "healthy" ∷ []
or_healthy (reason ∷ reasons) = reason ∷ reasons

module _ (rounded : ℤ → ℤ → ℤ) where
  abbrev pub capacity_weight : Option ℤ → ℤ
  capacity_weight none = min_path_weight
  capacity_weight (some capacity) = clamp_weight (rounded capacity default_capacity_bps)

  -- The weight before it is kept in its range.
  abbrev pub raw_weight : Option ℤ → Option ℤ → ℤ → ℤ → ℤ → Option ℤ → ℤ
  raw_weight capacity latency loss packets bytes jitter =
      capacity_weight capacity *ℤ pos 16
      -ℤ latency_penalty latency
      -ℤ jitter_penalty jitter
      -ℤ loss_penalty loss
      -ℤ queue_penalty packets bytes

  unfoldable pub adaptive_weight : Option ℤ → Option ℤ → ℤ → ℤ → ℤ → Option ℤ → ℤ
  unfolding clamp_weight
  adaptive_weight capacity latency loss packets bytes jitter =
      clamp_weight (raw_weight capacity latency loss packets bytes jitter)

  -- The score before the health is looked at, and the reasons.
  unfoldable pub penalties : ScoredMetrics → ℤ × List String
  penalties m =
      let latency_cost = min_ℤ (pos 80) (latency_penalty (scheduler_latency_us m) *ℤ pos 10) in
      let s0 =
        penalize_cost latency_cost "latency_penalty"
          (capacity_weight m.tx_capacity_bps *ℤ pos 100, []) in
      let s1 =
        penalize_cost (min_ℤ (pos 100) (loss_penalty m.loss_ppm *ℤ pos 4)) "loss_penalty" s0 in
      let s2 =
        penalize_cost (min_ℤ (pos 120) (queue_penalty m.queue_depth_packets m.queue_depth_bytes))
          "queue_pressure" s1 in
      let s3 =
        penalize (not (eq_ℤ m.send_failures (pos 0))) (min_ℤ (pos 120) (m.send_failures *ℤ pos 20))
          "send_failures" s2 in
      let s4 =
        penalize (not (eq_ℤ m.receive_gaps (pos 0))) (min_ℤ (pos 80) (m.receive_gaps *ℤ pos 10))
          "receive_gaps" s3 in
      let s5 =
        penalize (not (eq_ℤ m.local_drops (pos 0))) (min_ℤ (pos 120) (m.local_drops *ℤ pos 20))
          "local_drops" s4 in
      let s6 =
        penalize (leb_ℤ high_reorder_depth_packets m.reorder_depth_packets) (pos 80)
          "reorder_pressure" s5 in
      let s7 =
        penalize (leb_ℤ high_in_flight_packets m.scheduler_in_flight_packets) (pos 40)
          "in_flight_pressure" s6 in
      let s8 =
        penalize (leb_ℤ high_reorder_buffer_packets m.reorder_buffer_packets) (pos 80)
          "receiver_blocking" s7 in
      penalize (leb_ℤ stale_control_down_us m.stale_control_age_us) (pos 0) "control_stale" s8

  -- No reason is appended twice, so that `dict.fromkeys` keeps the list as it is.
  unfoldable pub score_path : ScoredMetrics → PathScore
  unfolding penalties adaptive_weight capacity_confidence_ppm
  score_path m =
      let (score, reasons) = penalties m in
      let health = health_of m in
      let weight =
        adaptive_weight m.tx_capacity_bps (scheduler_latency_us m) m.loss_ppm m.queue_depth_packets
          m.queue_depth_bytes none in
      record {
        path_name = m.path_name;
        health = health;
        score = max_ℤ (pos 0) (score_for health score);
        weight = weight_for health weight;
        capacity_confidence_ppm = capacity_confidence_ppm m;
        reasons = or_healthy reasons;
      }
