-- ===== src/Protocol/RoundTrip/NameLoops.antt =====
-- The four kinds of names and the policies, loop by loop.
use gatherlink.Prelude.{◌≡◌, [], ok, length, All, Dict, HasDistinctKeys}
use gatherlink.Prelude.Int.{ℤ}
use gatherlink.Bytes.{Bytes}
use gatherlink.Text.{Text}
use gatherlink.Protocol.ControlType
use gatherlink.Protocol.Frame.{ControlFrame, five, six, ServiceSchedulerPolicy}
use gatherlink.Protocol.Encode.Names.{
  write_each, encode_path_metadata, encode_service_metadata, encode_service_endpoint_assertions,
  encode_service_disables,
}
use gatherlink.Protocol.Encode.Events.{encode_service_scheduler_policies}
use gatherlink.Protocol.Decode.Values.{
  decode_path_metadata_value, decode_service_metadata_value,
  decode_service_endpoint_assertion_value, decode_service_disable_value,
}
use gatherlink.Protocol.Decode.Events.{decode_service_scheduler_policy_value}
use gatherlink.Protocol.Decode.{apply_message}
use gatherlink.Protocol.RoundTrip.Sends.{Sends, IsSix}
use gatherlink.Protocol.RoundTrip.Names.{
  encode_path_metadata-Sends, encode_service_metadata-Sends,
  encode_service_endpoint_assertions-Sends, encode_service_disables-Sends,
}
use gatherlink.Protocol.RoundTrip.Clocks.{encode_service_scheduler_policies-Sends}
use gatherlink.Protocol.RoundTrip.Carries.{Carries, Carries-dict, All_trivial}

policy-Sends :
    (k : ℤ) (v : ServiceSchedulerPolicy)
    → IsSix v
    → (bs : Bytes) → encode_service_scheduler_policies (k, v) ≡ ok bs
    → Sends ControlType.service_scheduler_policy decode_service_scheduler_policy_value (k, v) bs
policy-Sends k (five a b c d e) good bs h = absurd good
policy-Sends k (six a b c d e p) good bs h = encode_service_scheduler_policies-Sends k a b c d e p h

module _ (g : ControlFrame) where
  pub Carries-path_metadata :
      (es : Dict Text)
      → HasDistinctKeys es
      → Carries
          (write_each encode_path_metadata es)
          (length es)
          (record g { path_metadata = [] })
          (record g { path_metadata = es })
  Carries-path_metadata es distinct =
      Carries-dict ControlType.path_metadata decode_path_metadata_value (λ v. Unit)
        encode_path_metadata (λ d. record g { path_metadata = d })
        (λ k v good bs h. encode_path_metadata-Sends k v h)
        (λ k v d value e. unfold apply_message in rw e) es distinct (All_trivial es)

  pub Carries-service_metadata :
      (es : Dict Text)
      → HasDistinctKeys es
      → Carries
          (write_each encode_service_metadata es)
          (length es)
          (record g { service_metadata = [] })
          (record g { service_metadata = es })
  Carries-service_metadata es distinct =
      Carries-dict ControlType.service_metadata decode_service_metadata_value (λ v. Unit)
        encode_service_metadata (λ d. record g { service_metadata = d })
        (λ k v good bs h. encode_service_metadata-Sends k v h)
        (λ k v d value e. unfold apply_message in rw e) es distinct (All_trivial es)

  pub Carries-service_endpoint_assertions :
      (es : Dict Text)
      → HasDistinctKeys es
      → Carries
          (write_each encode_service_endpoint_assertions es)
          (length es)
          (record g { service_endpoint_assertions = [] })
          (record g { service_endpoint_assertions = es })
  Carries-service_endpoint_assertions es distinct =
      Carries-dict ControlType.service_endpoint_assertion decode_service_endpoint_assertion_value
        (λ v. Unit) encode_service_endpoint_assertions
        (λ d. record g { service_endpoint_assertions = d })
        (λ k v good bs h. encode_service_endpoint_assertions-Sends k v h)
        (λ k v d value e. unfold apply_message in rw e) es distinct (All_trivial es)

  pub Carries-service_disables :
      (es : Dict Text)
      → HasDistinctKeys es
      → Carries
          (write_each encode_service_disables es)
          (length es)
          (record g { service_disables = [] })
          (record g { service_disables = es })
  Carries-service_disables es distinct =
      Carries-dict ControlType.service_disable decode_service_disable_value (λ v. Unit)
        encode_service_disables (λ d. record g { service_disables = d })
        (λ k v good bs h. encode_service_disables-Sends k v h)
        (λ k v d value e. unfold apply_message in rw e) es distinct (All_trivial es)

  pub Carries-service_scheduler_policies :
      (es : Dict ServiceSchedulerPolicy)
      → HasDistinctKeys es
      → All (λ e. IsSix e.1) es
      → Carries
          (write_each encode_service_scheduler_policies es)
          (length es)
          (record g { service_scheduler_policies = [] })
          (record g { service_scheduler_policies = es })
  Carries-service_scheduler_policies es distinct good =
      Carries-dict ControlType.service_scheduler_policy decode_service_scheduler_policy_value IsSix
        encode_service_scheduler_policies (λ d. record g { service_scheduler_policies = d })
        (λ k v good bs h. policy-Sends k v good bs h)
        (λ k v d value e. unfold apply_message in rw e) es distinct good
