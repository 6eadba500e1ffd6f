-- ===== src/Protocol/Sound/Step.antt =====
-- Every message keeps the invariant of the decoded frame, and so does the whole loop.
use gatherlink.Prelude.{
  ℕ, zero, suc, ◌≡◌, ◌∷◌, [], Option, none, some, All, arith, Option-cases, inl, inr, refl, sym,
  ◌∙◌, drop, ok,
}
use gatherlink.Prelude.Maybe.{◌>>=◌}
use gatherlink.Prelude.Dicts.Insert.{insert-HasDistinctKeys, All-insert, All-append_one}
use gatherlink.Bytes.{Bytes, read_u16}
use gatherlink.Protocol.Constants.{user_service_id_start}
use gatherlink.Protocol.Frame.{ControlFrame, empty_frame}
use gatherlink.Protocol.Decode.{
  Kind, kind_of, apply_kind, apply_message, next_message, decode_messages, decode_control_payload,
}
use gatherlink.Protocol.Decode.Values.{
  decode_path_metadata_value, decode_service_metadata_value,
  decode_service_endpoint_assertion_value, decode_service_disable_value, decode_path_capacity_value,
  decode_path_latency_value, decode_path_latency_quality_value, decode_path_latency_stats_value,
  decode_path_mtu_value, decode_path_pressure_value,
}
use gatherlink.Protocol.Decode.Events.{
  decode_service_scheduler_policy_value, decode_scheduler_status_value,
  decode_data_transmit_sample_value, decode_internal_clock_sync_value, decode_sink_time_value,
}
use gatherlink.Protocol.RoundTrip.Sends.{IsSix, HasNonzeroMetrics, IsCompleteSync}
use gatherlink.Protocol.RoundTrip.Messages.{IsCanonical}
use gatherlink.Protocol.RoundTrip.Payload.{decode_control_payload-encode}
use gatherlink.Protocol.RoundTrip.Carries.{decode_messages-suc}
use gatherlink.Protocol.Encode.{encode_control_payload}
use gatherlink.Protocol.Sound.Values.{
  IsUserService, decode_named-range, decode_policy-range, decode_stats-HasNonzeroMetrics,
  decode_sync-IsCompleteSync,
}

-- The frame is canonical, and it speaks of user services only.
pub record IsSound (f : ControlFrame) : Type 0 where
  pub canonical : IsCanonical f
  pub service_metadata : All (λ e. IsUserService e.0) f.service_metadata
  pub service_endpoint_assertions : All (λ e. IsUserService e.0) f.service_endpoint_assertions
  pub service_disables : All (λ e. IsUserService e.0) f.service_disables
  pub service_scheduler_policies : All (λ e. IsUserService e.0) f.service_scheduler_policies

-- A branch that returns has decoded its value.
decoded :
    {A B : Type 0} (o : Option A) (k : A → Option B) {b : B}
    → (o >>= k) ≡ some b
    → (a : A) × (o ≡ some a) × (k a ≡ some b)
decoded none k h = absurd (cc)
decoded (some a) k h = (a, refl, h)

some_inj : {A : Type 0} (P : A → Type 0) {a b : A} → some a ≡ some b → P a → P b
some_inj P {a} {b} h p = let e : a ≡ b = cc in rw e at p

apply_kind-IsSound :
    (f : ControlFrame) (kind : Kind) (value : Bytes) {f' : ControlFrame}
    → IsSound f
    → apply_kind f kind value ≡ some f'
    → IsSound f'
unfolding apply_kind
apply_kind-IsSound f Kind.path_metadata value s h =
    let (e, d, h1) = decoded (decode_path_metadata_value value) _ h in
    some_inj IsSound h1
      (assumption (insert-HasDistinctKeys e.0 e.1 f.path_metadata s.canonical.path_metadata))
apply_kind-IsSound f Kind.service_metadata value s h =
    let (e, d, h1) = decoded (decode_service_metadata_value value) _ h in
    let good : IsUserService e.0 =
      unfold decode_service_metadata_value in
      decode_named-range user_service_id_start value e.0 e.1 d in
    some_inj IsSound h1 (
      assumption (
        insert-HasDistinctKeys e.0 e.1 f.service_metadata s.canonical.service_metadata,
        All-insert (λ p. IsUserService p.0) e.0 e.1 f.service_metadata good s.service_metadata,
      ))
apply_kind-IsSound f Kind.service_endpoint_assertion value s h =
    let (e, d, h1) = decoded (decode_service_endpoint_assertion_value value) _ h in
    let good : IsUserService e.0 =
      unfold decode_service_endpoint_assertion_value in
      decode_named-range user_service_id_start value e.0 e.1 d in
    some_inj IsSound h1 (
      assumption (
        insert-HasDistinctKeys e.0 e.1 f.service_endpoint_assertions
            s.canonical.service_endpoint_assertions,
        All-insert (λ p. IsUserService p.0) e.0 e.1 f.service_endpoint_assertions good
            s.service_endpoint_assertions,
      ))
apply_kind-IsSound f Kind.service_disable value s h =
    let (e, d, h1) = decoded (decode_service_disable_value value) _ h in
    let good : IsUserService e.0 =
      unfold decode_service_disable_value in
      decode_named-range user_service_id_start value e.0 e.1 d in
    some_inj IsSound h1 (
      assumption (
        insert-HasDistinctKeys e.0 e.1 f.service_disables s.canonical.service_disables,
        All-insert (λ p. IsUserService p.0) e.0 e.1 f.service_disables good s.service_disables,
      ))
apply_kind-IsSound f Kind.service_scheduler_policy value s h =
    let (e, d, h1) = decoded (decode_service_scheduler_policy_value value) _ h in
    let good = decode_policy-range value e.0 e.1 d in
    some_inj IsSound h1 (
      assumption (
        insert-HasDistinctKeys e.0 e.1 f.service_scheduler_policies
            s.canonical.service_scheduler_policies,
        All-insert (λ p. IsSix p.1) e.0 e.1 f.service_scheduler_policies good.1 s.canonical.sixes,
        All-insert (λ p. IsUserService p.0) e.0 e.1 f.service_scheduler_policies good.0
            s.service_scheduler_policies,
      ))
apply_kind-IsSound f Kind.path_capacity value s h =
    let (e, d, h1) = decoded (decode_path_capacity_value value) _ h in
    some_inj IsSound h1 (
      assumption (insert-HasDistinctKeys e.0 e.1 f.path_capacity_bps s.canonical.path_capacity_bps))
apply_kind-IsSound f Kind.path_latency value s h =
    let (e, d, h1) = decoded (decode_path_latency_value value) _ h in
    some_inj IsSound h1
      (assumption (insert-HasDistinctKeys e.0 e.1 f.path_latency_us s.canonical.path_latency_us))
apply_kind-IsSound f Kind.path_latency_quality value s h =
    let (e, d, h1) = decoded (decode_path_latency_quality_value value) _ h in
    some_inj IsSound h1 (
      assumption
        (insert-HasDistinctKeys e.0 e.1 f.path_latency_quality s.canonical.path_latency_quality))
apply_kind-IsSound f Kind.path_latency_stats value s h =
    let (e, d, h1) = decoded (decode_path_latency_stats_value value) _ h in
    let good = decode_stats-HasNonzeroMetrics value e.0 e.1 d in
    some_inj IsSound h1 (
      assumption (
        insert-HasDistinctKeys e.0 e.1 f.path_latency_stats s.canonical.path_latency_stats,
        All-insert (λ p. HasNonzeroMetrics p.1) e.0 e.1 f.path_latency_stats good
            s.canonical.metrics,
      ))
apply_kind-IsSound f Kind.path_mtu value s h =
    let (e, d, h1) = decoded (decode_path_mtu_value value) _ h in
    some_inj IsSound h1
      (assumption (insert-HasDistinctKeys e.0 e.1 f.path_mtu s.canonical.path_mtu))
apply_kind-IsSound f Kind.path_pressure value s h =
    let (e, d, h1) = decoded (decode_path_pressure_value value) _ h in
    some_inj IsSound h1
      (assumption (insert-HasDistinctKeys e.0 e.1 f.path_pressure s.canonical.path_pressure))
apply_kind-IsSound f Kind.scheduler_status value s h =
    let (e, d, h1) = decoded (decode_scheduler_status_value value) _ h in
    some_inj IsSound h1 (assumption)
apply_kind-IsSound f Kind.data_transmit_sample value s h =
    let (e, d, h1) = decoded (decode_data_transmit_sample_value value) _ h in
    some_inj IsSound h1 (assumption)
apply_kind-IsSound f Kind.sink_time value s h =
    let (e, d, h1) = decoded (decode_sink_time_value value) _ h in some_inj IsSound h1 (assumption)
apply_kind-IsSound f Kind.internal_clock_sync value s h =
    let (e, d, h1) = decoded (decode_internal_clock_sync_value value) _ h in
    some_inj IsSound h1 (
      assumption (
        All-append_one IsCompleteSync f.internal_clock_sync e s.canonical.syncs
          (decode_sync-IsCompleteSync value e d)))
apply_kind-IsSound f Kind.unknown value s h = some_inj IsSound h s

decode_messages-stuck :
    (n : ℕ) (rest : Bytes) (f : ControlFrame)
    → next_message rest ≡ none
    → decode_messages (suc n) rest f ≡ none
unfolding decode_messages
decode_messages-stuck n rest f e = rw (e, decode_messages)

decode_messages-refused :
    (n t : ℕ) (v rest rest' : Bytes) (f : ControlFrame)
    → next_message rest ≡ some (t, v, rest')
    → apply_message f t v ≡ none
    → decode_messages (suc n) rest f ≡ none
unfolding decode_messages
decode_messages-refused n t v rest rest' f e a = rw (e, decode_messages) (rw (a, decode_messages))

decode_messages-zero :
    (rest : Bytes) (f : ControlFrame) {f' : ControlFrame}
    → decode_messages 0 rest f ≡ some f'
    → some f ≡ some f'
unfolding decode_messages
decode_messages-zero [] f h = h
decode_messages-zero (b ∷ rest) f h = ground arith

decode_messages-IsSound :
    (count : ℕ) (rest : Bytes) (f : ControlFrame) {f' : ControlFrame}
    → IsSound f
    → decode_messages count rest f ≡ some f'
    → IsSound f'
decode_messages-IsSound zero rest f s h = some_inj IsSound (decode_messages-zero rest f h) s
decode_messages-IsSound (suc count) rest f {f'} s h = elim (Option-cases (next_message rest)) [
  | inl e ↦ absurd (cc (decode_messages-stuck count rest f e))
  | inr ((t, v, rest'), e) ↦ elim (Option-cases (apply_message f t v)) [
    | inl a ↦ absurd (cc (decode_messages-refused count t v rest rest' f e a))
    | inr (g, a) ↦
        decode_messages-IsSound count rest' g
          (apply_kind-IsSound f (kind_of t) v s (unfold apply_message in a))
          (sym (decode_messages-suc count t v rest rest' f g e a) ∙ h)
  ]
]

empty_frame-IsSound : IsSound empty_frame
empty_frame-IsSound = omega arith

-- When any bytes are decoded to a control frame, the frame has every dict key once, policies of
-- six fields, no metric of zero, complete clock messages and only user service ids.
pub decode_control_payload-IsSound :
    (payload : Bytes) {f : ControlFrame} → decode_control_payload payload ≡ some f → IsSound f
unfolding decode_control_payload
decode_control_payload-IsSound payload {f} h =
    decode_messages-IsSound (read_u16 payload 1) (drop 3 payload) empty_frame empty_frame-IsSound
      (ground arith)

-- When a payload is decoded to a frame and the frame is encoded again, the new bytes are
-- decoded to the same frame.
pub decode-encode-decode :
    (payload : Bytes) (f : ControlFrame) {bs : Bytes}
    → decode_control_payload payload ≡ some f
    → encode_control_payload f ≡ ok bs
    → decode_control_payload bs ≡ some f
decode-encode-decode payload f h e =
    decode_control_payload-encode f (decode_control_payload-IsSound payload h).canonical e
