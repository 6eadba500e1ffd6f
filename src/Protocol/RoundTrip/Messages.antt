-- ===== src/Protocol/RoundTrip/Messages.antt =====
-- The messages of a control payload: decoding all of them gives the frame that they were made of.
use gatherlink.Prelude.{Option, none, some, All, HasDistinctKeys, arith}
use gatherlink.Protocol.ControlType
use gatherlink.Protocol.Frame.{ControlFrame, SchedulerStatus, empty_frame}
use gatherlink.Protocol.Encode.{status_count, message_count, encode_messages}
use gatherlink.Protocol.Encode.Events.{encode_scheduler_status}
use gatherlink.Protocol.Decode.{apply_message}
use gatherlink.Protocol.Decode.Events.{decode_scheduler_status_value}
use gatherlink.Protocol.RoundTrip.Sends.{IsSix, HasNonzeroMetrics, IsCompleteSync}
use gatherlink.Protocol.RoundTrip.Names.{encode_scheduler_status-Sends}
use gatherlink.Protocol.RoundTrip.Carries.{Carries, Carries-nothing, Carries-one, recount, ◌next◌}
use gatherlink.Protocol.RoundTrip.NameLoops.{
  Carries-path_metadata, Carries-service_metadata, Carries-service_endpoint_assertions,
  Carries-service_disables, Carries-service_scheduler_policies,
}
use gatherlink.Protocol.RoundTrip.PathLoops.{
  Carries-path_capacity_bps, Carries-path_latency_us, Carries-path_latency_quality,
  Carries-path_latency_stats, Carries-path_mtu, Carries-path_pressure,
}
use gatherlink.Protocol.RoundTrip.EventLoops.{
  Carries-data_transmit_samples, Carries-internal_clock_sync, Carries-sink_time,
}

-- The dicts are dicts, and the values are those that the wire can tell apart.
pub record IsCanonical (f : ControlFrame) : Type 0 where
  pub path_metadata : HasDistinctKeys f.path_metadata
  pub service_metadata : HasDistinctKeys f.service_metadata
  pub service_endpoint_assertions : HasDistinctKeys f.service_endpoint_assertions
  pub service_disables : HasDistinctKeys f.service_disables
  pub service_scheduler_policies : HasDistinctKeys f.service_scheduler_policies
  pub path_capacity_bps : HasDistinctKeys f.path_capacity_bps
  pub path_latency_us : HasDistinctKeys f.path_latency_us
  pub path_latency_quality : HasDistinctKeys f.path_latency_quality
  pub path_latency_stats : HasDistinctKeys f.path_latency_stats
  pub path_mtu : HasDistinctKeys f.path_mtu
  pub path_pressure : HasDistinctKeys f.path_pressure
  pub sixes : All (λ e. IsSix e.1) f.service_scheduler_policies
  pub metrics : All (λ e. HasNonzeroMetrics e.1) f.path_latency_stats
  pub syncs : All IsCompleteSync f.internal_clock_sync

Carries-status :
    (g : ControlFrame) (s : Option SchedulerStatus)
    → Carries
        (encode_scheduler_status s)
        (status_count s)
        (record g { scheduler_status = none })
        (record g { scheduler_status = s })
unfolding status_count encode_scheduler_status
Carries-status g none = Carries-nothing _
Carries-status g (some s) =
    Carries-one ControlType.scheduler_status decode_scheduler_status_value s _ _ _
      (λ bs h. encode_scheduler_status-Sends s.0 s.1 s.2 h)
      (λ value e. unfold apply_message in rw e)

module _ (f : ControlFrame) (c : IsCanonical f) where
  -- The loops in the encoder's order, each from the frame that the one before it has filled.
  pub Carries-messages : Carries (encode_messages f) (message_count f) empty_frame f
  unfolding encode_messages message_count
  Carries-messages = recount (omega arith) (
      Carries-path_metadata empty_frame f.path_metadata c.path_metadata
      next Carries-service_metadata (record empty_frame { path_metadata = f.path_metadata })
          f.service_metadata c.service_metadata
      next Carries-service_endpoint_assertions
          (record empty_frame {
            path_metadata = f.path_metadata;
            service_metadata = f.service_metadata;
          })
          f.service_endpoint_assertions c.service_endpoint_assertions
      next Carries-service_disables
          (record empty_frame {
            path_metadata = f.path_metadata;
            service_metadata = f.service_metadata;
            service_endpoint_assertions = f.service_endpoint_assertions;
          })
          f.service_disables c.service_disables
      next Carries-service_scheduler_policies
          (record empty_frame {
            path_metadata = f.path_metadata;
            service_metadata = f.service_metadata;
            service_endpoint_assertions = f.service_endpoint_assertions;
            service_disables = f.service_disables;
          })
          f.service_scheduler_policies c.service_scheduler_policies c.sixes
      next Carries-path_capacity_bps
          (record empty_frame {
            path_metadata = f.path_metadata;
            service_metadata = f.service_metadata;
            service_endpoint_assertions = f.service_endpoint_assertions;
            service_disables = f.service_disables;
            service_scheduler_policies = f.service_scheduler_policies;
          })
          f.path_capacity_bps c.path_capacity_bps
      next Carries-path_latency_us
          (record empty_frame {
            path_metadata = f.path_metadata;
            service_metadata = f.service_metadata;
            service_endpoint_assertions = f.service_endpoint_assertions;
            service_disables = f.service_disables;
            service_scheduler_policies = f.service_scheduler_policies;
            path_capacity_bps = f.path_capacity_bps;
          })
          f.path_latency_us c.path_latency_us
      next Carries-path_latency_quality
          (record empty_frame {
            path_metadata = f.path_metadata;
            service_metadata = f.service_metadata;
            service_endpoint_assertions = f.service_endpoint_assertions;
            service_disables = f.service_disables;
            service_scheduler_policies = f.service_scheduler_policies;
            path_capacity_bps = f.path_capacity_bps;
            path_latency_us = f.path_latency_us;
          })
          f.path_latency_quality c.path_latency_quality
      next Carries-path_latency_stats
          (record empty_frame {
            path_metadata = f.path_metadata;
            service_metadata = f.service_metadata;
            service_endpoint_assertions = f.service_endpoint_assertions;
            service_disables = f.service_disables;
            service_scheduler_policies = f.service_scheduler_policies;
            path_capacity_bps = f.path_capacity_bps;
            path_latency_us = f.path_latency_us;
            path_latency_quality = f.path_latency_quality;
          })
          f.path_latency_stats c.path_latency_stats c.metrics
      next Carries-path_mtu
          (record empty_frame {
            path_metadata = f.path_metadata;
            service_metadata = f.service_metadata;
            service_endpoint_assertions = f.service_endpoint_assertions;
            service_disables = f.service_disables;
            service_scheduler_policies = f.service_scheduler_policies;
            path_capacity_bps = f.path_capacity_bps;
            path_latency_us = f.path_latency_us;
            path_latency_quality = f.path_latency_quality;
            path_latency_stats = f.path_latency_stats;
          })
          f.path_mtu c.path_mtu
      next Carries-path_pressure
          (record empty_frame {
            path_metadata = f.path_metadata;
            service_metadata = f.service_metadata;
            service_endpoint_assertions = f.service_endpoint_assertions;
            service_disables = f.service_disables;
            service_scheduler_policies = f.service_scheduler_policies;
            path_capacity_bps = f.path_capacity_bps;
            path_latency_us = f.path_latency_us;
            path_latency_quality = f.path_latency_quality;
            path_latency_stats = f.path_latency_stats;
            path_mtu = f.path_mtu;
          })
          f.path_pressure c.path_pressure
      next Carries-status
          (record empty_frame {
            path_metadata = f.path_metadata;
            service_metadata = f.service_metadata;
            service_endpoint_assertions = f.service_endpoint_assertions;
            service_disables = f.service_disables;
            service_scheduler_policies = f.service_scheduler_policies;
            path_capacity_bps = f.path_capacity_bps;
            path_latency_us = f.path_latency_us;
            path_latency_quality = f.path_latency_quality;
            path_latency_stats = f.path_latency_stats;
            path_mtu = f.path_mtu;
            path_pressure = f.path_pressure;
          })
          f.scheduler_status
      next Carries-data_transmit_samples
          (record empty_frame {
            path_metadata = f.path_metadata;
            service_metadata = f.service_metadata;
            service_endpoint_assertions = f.service_endpoint_assertions;
            service_disables = f.service_disables;
            service_scheduler_policies = f.service_scheduler_policies;
            path_capacity_bps = f.path_capacity_bps;
            path_latency_us = f.path_latency_us;
            path_latency_quality = f.path_latency_quality;
            path_latency_stats = f.path_latency_stats;
            path_mtu = f.path_mtu;
            path_pressure = f.path_pressure;
            scheduler_status = f.scheduler_status;
          })
          f.data_transmit_samples
      next Carries-internal_clock_sync
          (record empty_frame {
            path_metadata = f.path_metadata;
            service_metadata = f.service_metadata;
            service_endpoint_assertions = f.service_endpoint_assertions;
            service_disables = f.service_disables;
            service_scheduler_policies = f.service_scheduler_policies;
            path_capacity_bps = f.path_capacity_bps;
            path_latency_us = f.path_latency_us;
            path_latency_quality = f.path_latency_quality;
            path_latency_stats = f.path_latency_stats;
            path_mtu = f.path_mtu;
            path_pressure = f.path_pressure;
            scheduler_status = f.scheduler_status;
            data_transmit_samples = f.data_transmit_samples;
          })
          f.internal_clock_sync c.syncs
      next Carries-sink_time
          (record empty_frame {
            path_metadata = f.path_metadata;
            service_metadata = f.service_metadata;
            service_endpoint_assertions = f.service_endpoint_assertions;
            service_disables = f.service_disables;
            service_scheduler_policies = f.service_scheduler_policies;
            path_capacity_bps = f.path_capacity_bps;
            path_latency_us = f.path_latency_us;
            path_latency_quality = f.path_latency_quality;
            path_latency_stats = f.path_latency_stats;
            path_mtu = f.path_mtu;
            path_pressure = f.path_pressure;
            scheduler_status = f.scheduler_status;
            data_transmit_samples = f.data_transmit_samples;
            internal_clock_sync = f.internal_clock_sync;
          })
          f.sink_time)
