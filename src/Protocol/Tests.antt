-- ===== src/Protocol/Tests.antt =====
-- Runs of python/gatherlink/protocol.py on sample frames.
use gatherlink.Prelude.{◌≡◌, refl, [], ◌∷◌, none, some, ok}
use gatherlink.Prelude.Int.{pos}
use gatherlink.Bytes.{Bytes}
use gatherlink.Protocol.Frame.{ControlFrame}
use gatherlink.Protocol.Encode.{encode_control_payload}
use gatherlink.Protocol.Decode.{decode_control_payload}
use gatherlink.Protocol.DataFrame.{
  encode_data_frame, encode_control_frame, decode_data_frame, decode_control_frame,
}
use gatherlink.Protocol.RoundTrip.Messages.{IsCanonical}
use gatherlink.Protocol.RoundTrip.Payload.{decode_control_payload-encode}
use gatherlink.Protocol.RoundTrip.Frames.{decode_data_frame-encode, decode_control_frame-payload}
use gatherlink.Protocol.Sound.Step.{IsSound, decode_control_payload-IsSound, decode-encode-decode}

abbrev sample_frame : ControlFrame
sample_frame = record {
  path_metadata = (pos 1, 119 ∷ 97 ∷ 110 ∷ []) ∷ [];
  service_metadata = (pos 300, 118 ∷ 112 ∷ 110 ∷ []) ∷ [];
  service_endpoint_assertions = [];
  service_disables = [];
  service_scheduler_policies = [];
  path_capacity_bps = (pos 1, (some (pos 1000000), none)) ∷ [];
  path_latency_us = [];
  path_latency_quality = [];
  path_latency_stats = [];
  path_mtu = (pos 1, (some (pos 1500), some (pos 1400), none, none)) ∷ [];
  path_pressure = [];
  scheduler_status = none;
  data_transmit_samples = [];
  internal_clock_sync =
      record {
        exchange_id = pos 7;
        path_id = pos 1;
        mode = pos 2;
        origin_us = pos 10;
        receive_us = some (pos 20);
        transmit_us = some (pos 30);
      }
      ∷ [];
  sink_time = [];
}

abbrev sample_payload : Bytes
sample_payload =
    1 ∷ 0 ∷ 5 ∷ 3 ∷ 0 ∷ 6 ∷ 0 ∷ 1 ∷ 3 ∷ 119 ∷ 97 ∷ 110 ∷ 8 ∷ 0 ∷ 6 ∷ 1 ∷ 44 ∷ 3 ∷ 118 ∷ 112 ∷ 110
    ∷ 4 ∷ 0 ∷ 18 ∷ 0 ∷ 1 ∷ 0 ∷ 0 ∷ 0 ∷ 0 ∷ 0 ∷ 15 ∷ 66 ∷ 64 ∷ 0 ∷ 0 ∷ 0 ∷ 0 ∷ 0 ∷ 0 ∷ 0 ∷ 0 ∷ 11 ∷ 0
    ∷ 10 ∷ 0 ∷ 1 ∷ 5 ∷ 220 ∷ 5 ∷ 120 ∷ 0 ∷ 0 ∷ 0 ∷ 0 ∷ 6 ∷ 0 ∷ 35 ∷ 0 ∷ 0 ∷ 0 ∷ 0 ∷ 0 ∷ 0 ∷ 0 ∷ 7
    ∷ 0 ∷ 1 ∷ 2 ∷ 0 ∷ 0 ∷ 0 ∷ 0 ∷ 0 ∷ 0 ∷ 0 ∷ 10 ∷ 0 ∷ 0 ∷ 0 ∷ 0 ∷ 0 ∷ 0 ∷ 0 ∷ 20 ∷ 0 ∷ 0 ∷ 0 ∷ 0
    ∷ 0 ∷ 0 ∷ 0 ∷ 30 ∷ []

encoded : encode_control_payload sample_frame ≡ ok sample_payload
unfolding encode_control_payload gatherlink.Protocol.Encode.message_count
    gatherlink.Protocol.Encode.encode_messages gatherlink.Protocol.Encode.Names.write_each
    gatherlink.Protocol.Encode.Names.encode_path_metadata gatherlink.Text.utf8_encode
    gatherlink.Protocol.Encode.Names.encode_service_metadata
    gatherlink.Protocol.Encode.Paths.encode_path_capacity gatherlink.Protocol.Limits.optional_u64
    gatherlink.Bytes.append_u64 gatherlink.Protocol.Encode.Paths.encode_path_mtu
    gatherlink.Protocol.Limits.valid_mtu_pair gatherlink.Protocol.Limits.optional_u16
    gatherlink.Protocol.Encode.Events.encode_scheduler_status
    gatherlink.Protocol.Encode.Events.encode_internal_clock_sync gatherlink.Bytes.to_be
encoded = refl

decoded : decode_control_payload sample_payload ≡ some sample_frame
unfolding decode_control_payload gatherlink.Protocol.Decode.decode_messages
    gatherlink.Bytes.read_u16 gatherlink.Bytes.from_be gatherlink.Protocol.Decode.next_message
    gatherlink.Protocol.Decode.apply_message
    gatherlink.Protocol.Decode.Values.decode_path_metadata_value gatherlink.Text.utf8_decode
    gatherlink.Protocol.Decode.Values.decode_service_metadata_value
    gatherlink.Protocol.Decode.Values.decode_path_capacity_value
    gatherlink.Protocol.Decode.Values.decode_path_mtu_value
    gatherlink.Protocol.Limits.valid_mtu_pair gatherlink.Protocol.Limits.decode_optional
    gatherlink.Protocol.Decode.Events.decode_internal_clock_sync_value gatherlink.Bytes.read_u64
decoded = refl

sample_frame-IsSound : IsSound sample_frame
sample_frame-IsSound = decode_control_payload-IsSound sample_payload decoded

sample_frame-IsCanonical : IsCanonical sample_frame
sample_frame-IsCanonical = sample_frame-IsSound.canonical

-- The two frames around it, and a data frame.
abbrev sample_control_frame : Bytes
sample_control_frame = 1 ∷ 1 ∷ 0 ∷ 1 ∷ 0 ∷ 1 ∷ 0 ∷ 0 ∷ 0 ∷ 0 ∷ 0 ∷ 0 ∷ 0 ∷ 0 ∷ sample_payload

abbrev sample_data_frame : Bytes
sample_data_frame = 1 ∷ 0 ∷ 1 ∷ 0 ∷ 0 ∷ 1 ∷ 0 ∷ 0 ∷ 0 ∷ 0 ∷ 0 ∷ 0 ∷ 0 ∷ 9 ∷ sample_payload

control_framed : encode_control_frame (pos 1) sample_payload ≡ ok sample_control_frame
unfolding encode_control_frame gatherlink.Bytes.to_be
control_framed = refl

data_framed : encode_data_frame (pos 9) (pos 1) sample_payload ≡ ok sample_data_frame
unfolding encode_data_frame gatherlink.Bytes.to_be
data_framed = refl

decode_control_payload-encode_example : decode_control_payload sample_payload ≡ some sample_frame
decode_control_payload-encode_example =
    decode_control_payload-encode sample_frame sample_frame-IsCanonical encoded

decode_control_payload-IsSound_example : IsSound sample_frame
decode_control_payload-IsSound_example = decode_control_payload-IsSound sample_payload decoded

decode-encode-decode_example : decode_control_payload sample_payload ≡ some sample_frame
decode-encode-decode_example = decode-encode-decode sample_payload sample_frame decoded encoded

decode_data_frame-encode_example :
    decode_data_frame sample_data_frame
    ≡ some (record { path_id = pos 1; sequence = pos 9; payload = sample_payload })
decode_data_frame-encode_example =
    decode_data_frame-encode (pos 9) (pos 1) sample_payload data_framed

decode_control_frame-payload_example : decode_control_frame sample_control_frame ≡ some sample_frame
decode_control_frame-payload_example =
    decode_control_frame-payload sample_frame (pos 1) sample_frame-IsCanonical encoded
      control_framed
