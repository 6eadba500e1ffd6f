-- ===== src/Protocol/Frame.antt =====
-- The values that the control metaband carries (`ControlFrame` and the tuple types of
-- python/gatherlink/protocol.py, the message classes of python/gatherlink/time/offset.py).
-- Python's ints are ℤ, `None` is `none`.
use gatherlink.Prelude.{Option, none, List, [], Dict}
use gatherlink.Prelude.Int.{ℤ}
use gatherlink.Text.{Text}

-- The first form is the older tuple of five, which the encoder accepts too.
pub data ServiceSchedulerPolicy : Type 0 where
  five :
      (fanout fanout_below_bytes flowlet_idle_us flowlet_max_hold_us path_run_datagrams : ℤ)
      → ServiceSchedulerPolicy
  six :
      (fanout fanout_below_bytes flowlet_idle_us flowlet_max_hold_us path_run_datagrams
        path_policy : ℤ)
      → ServiceSchedulerPolicy

pub record PathPressure : Type 0 where
  pub loss_ppm : ℤ
  pub queue_depth_packets : ℤ
  pub queue_depth_bytes : ℤ
  pub queue_oldest_age_us : ℤ
  pub send_failures : ℤ
  pub receive_gaps : ℤ
  pub reorder_depth_packets : ℤ
  pub local_drops : ℤ
  pub scheduler_in_flight_packets : ℤ
  pub scheduler_in_flight_bytes : ℤ
  pub scheduler_predicted_delivery_us : ℤ
  pub reorder_buffer_packets : ℤ
  pub reorder_buffer_oldest_age_us : ℤ
  pub observed_packets : ℤ

-- The strings of `_LATENCY_SOURCE_TO_CODE`, and any other.
pub data LatencySource : Type 0 where
  reply_rtt_half clock_synced_one_way data_traffic_one_way rejected peer : LatencySource
  other : Text → LatencySource

-- The strings of `_LATENCY_CONFIDENCE_TO_CODE`, and any other.
pub data LatencyConfidence : Type 0 where
  coarse warming good rejected : LatencyConfidence
  other : Text → LatencyConfidence

abbrev pub PathCapacity : Type 0
PathCapacity = Option ℤ × Option ℤ

abbrev pub PathLatency : Type 0
PathLatency = Option ℤ × Option ℤ × Option ℤ × Option ℤ

abbrev pub PathLatencyQuality : Type 0
PathLatencyQuality = Option LatencySource × Option LatencyConfidence

abbrev pub PathLatencyStats : Type 0
PathLatencyStats = Option ℤ × Option ℤ × Option ℤ × Option ℤ × Option ℤ × Option ℤ

abbrev pub PathMtu : Type 0
PathMtu = Option ℤ × Option ℤ × Option ℤ × Option ℤ

abbrev pub SchedulerStatus : Type 0
SchedulerStatus = Text × Text × Text

pub record DataTransmitSample : Type 0 where
  pub path_id : ℤ
  pub first_sequence : ℤ
  pub packet_count : ℤ
  pub transmit_us : ℤ

pub record InternalClockSyncMessage : Type 0 where
  pub exchange_id : ℤ
  pub path_id : ℤ
  pub mode : ℤ
  pub origin_us : ℤ
  pub receive_us : Option ℤ
  pub transmit_us : Option ℤ

pub record SinkTimeMessage : Type 0 where
  pub path_id : ℤ
  pub sink_unix_us : ℤ
  pub sink_internal_us : ℤ
  pub ntp_state : ℤ

pub record ControlFrame : Type 0 where
  pub path_metadata : Dict Text
  pub service_metadata : Dict Text
  pub service_endpoint_assertions : Dict Text
  pub service_disables : Dict Text
  pub service_scheduler_policies : Dict ServiceSchedulerPolicy
  pub path_capacity_bps : Dict PathCapacity
  pub path_latency_us : Dict PathLatency
  pub path_latency_quality : Dict PathLatencyQuality
  pub path_latency_stats : Dict PathLatencyStats
  pub path_mtu : Dict PathMtu
  pub path_pressure : Dict PathPressure
  pub scheduler_status : Option SchedulerStatus
  pub data_transmit_samples : List DataTransmitSample
  pub internal_clock_sync : List InternalClockSyncMessage
  pub sink_time : List SinkTimeMessage

abbrev pub empty_frame : ControlFrame
empty_frame = record {
  path_metadata = [];
  service_metadata = [];
  service_endpoint_assertions = [];
  service_disables = [];
  service_scheduler_policies = [];
  path_capacity_bps = [];
  path_latency_us = [];
  path_latency_quality = [];
  path_latency_stats = [];
  path_mtu = [];
  path_pressure = [];
  scheduler_status = none;
  data_transmit_samples = [];
  internal_clock_sync = [];
  sink_time = [];
}
