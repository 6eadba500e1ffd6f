-- ===== src/Protocol/ControlType.antt =====
-- The message types of the control metaband (`CONTROL_TYPE_*` of python/gatherlink/protocol.py).
use gatherlink.Prelude.{ℕ}

abbrev pub path_metadata : ℕ
path_metadata = 3

abbrev pub path_capacity : ℕ
path_capacity = 4

abbrev pub path_latency : ℕ
path_latency = 5

abbrev pub internal_clock_sync : ℕ
internal_clock_sync = 6

abbrev pub sink_time : ℕ
sink_time = 7

abbrev pub service_metadata : ℕ
service_metadata = 8

abbrev pub service_endpoint_assertion : ℕ
service_endpoint_assertion = 9

abbrev pub service_disable : ℕ
service_disable = 10

abbrev pub path_mtu : ℕ
path_mtu = 11

abbrev pub service_scheduler_policy : ℕ
service_scheduler_policy = 12

abbrev pub path_pressure : ℕ
path_pressure = 13

abbrev pub scheduler_status : ℕ
scheduler_status = 14

abbrev pub data_transmit_sample : ℕ
data_transmit_sample = 15

abbrev pub path_latency_quality : ℕ
path_latency_quality = 16

abbrev pub path_latency_stats : ℕ
path_latency_stats = 17
