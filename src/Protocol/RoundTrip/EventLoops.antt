-- ===== src/Protocol/RoundTrip/EventLoops.antt =====
-- The lists of events, loop by loop.
use gatherlink.Prelude.{List, [], length, All}
use gatherlink.Protocol.ControlType
use gatherlink.Protocol.Frame.{
  ControlFrame, DataTransmitSample, InternalClockSyncMessage, SinkTimeMessage,
}
use gatherlink.Protocol.Encode.Names.{write_each}
use gatherlink.Protocol.Encode.Events.{
  encode_data_transmit_samples, encode_internal_clock_sync, encode_sink_time,
}
use gatherlink.Protocol.Decode.Events.{
  decode_data_transmit_sample_value, decode_internal_clock_sync_value, decode_sink_time_value,
}
use gatherlink.Protocol.Decode.{apply_message}
use gatherlink.Protocol.RoundTrip.Sends.{IsCompleteSync}
use gatherlink.Protocol.RoundTrip.Clocks.{
  encode_data_transmit_samples-Sends, encode_internal_clock_sync-Sends, encode_sink_time-Sends,
}
use gatherlink.Protocol.RoundTrip.Carries.{Carries, Carries-list, All_trivial}

module _ (g : ControlFrame) where
  pub Carries-data_transmit_samples :
      (es : List DataTransmitSample)
      → Carries
          (write_each encode_data_transmit_samples es)
          (length es)
          (record g { data_transmit_samples = [] })
          (record g { data_transmit_samples = es })
  Carries-data_transmit_samples es =
      Carries-list ControlType.data_transmit_sample decode_data_transmit_sample_value (λ v. Unit)
        encode_data_transmit_samples (λ d. record g { data_transmit_samples = d })
        (λ x good bs h. encode_data_transmit_samples-Sends x h)
        (λ x xs value e. unfold apply_message in rw e) es (All_trivial es)

  pub Carries-internal_clock_sync :
      (es : List InternalClockSyncMessage)
      → All IsCompleteSync es
      → Carries
          (write_each encode_internal_clock_sync es)
          (length es)
          (record g { internal_clock_sync = [] })
          (record g { internal_clock_sync = es })
  Carries-internal_clock_sync es good =
      Carries-list ControlType.internal_clock_sync decode_internal_clock_sync_value IsCompleteSync
        encode_internal_clock_sync (λ d. record g { internal_clock_sync = d })
        (λ x good bs h. encode_internal_clock_sync-Sends x good h)
        (λ x xs value e. unfold apply_message in rw e) es good

  pub Carries-sink_time :
      (es : List SinkTimeMessage)
      → Carries
          (write_each encode_sink_time es)
          (length es)
          (record g { sink_time = [] })
          (record g { sink_time = es })
  Carries-sink_time es =
      Carries-list ControlType.sink_time decode_sink_time_value (λ v. Unit) encode_sink_time
        (λ d. record g { sink_time = d }) (λ x good bs h. encode_sink_time-Sends x h)
        (λ x xs value e. unfold apply_message in rw e) es (All_trivial es)
