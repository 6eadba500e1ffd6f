-- ===== src/Security/Relay/Compiled.antt =====
-- What python/gatherlink/security/relay_sessions.py passes on to the relay executor.
use gatherlink.Prelude.{
  ◌≡◌, refl, ap, Bool, true, false, not, ◌||◌, List, [], ◌∷◌, ◌++◌, eq_list, eq_list→eq, ◌==◌,
  ==_iff, ok, ok_inj, raise_if-eq-ok, >>=-eq-ok, arith, Bool-cases, inl, inr, subst,
}
use gatherlink.Prelude.Int.{ℤ, pos, ◌+ℤ◌, ◌≤ℤ◌, +ℤ_parts}
use gatherlink.Text.{Text}
use gatherlink.Security.Relay.{
  RelaySessionAuthorization, RelayExecutorConfig, require_u32, require_ge, require_positive_if_any,
  udp, partition_colon, parse_next_hop_endpoint, is_expired, from_authorization,
  compile_relay_executor_configs,
}

partition_colon-append :
    (text : Text)
    → (partition_colon text).1 ≡ true
    → text ≡ (partition_colon text).0 ++ 58 ∷ (partition_colon text).2
unfolding partition_colon
partition_colon-append [] h = absurd (cc h)
partition_colon-append (c ∷ text) h = elim (Bool-cases (c == 58)) [
  | inl colon ↦
      let same : c ≡ 58 = (==_iff c 58).0 colon in rw (partition_colon, colon) (rw same refl)
  | inr other ↦
      let h' = rw (partition_colon, other) at h in
      rw (partition_colon, other) (ap (λ l. c ∷ l) (partition_colon-append text h'))
]

parse_next_hop_endpoint_lem :
    (endpoint : Text) {address : Text}
    → parse_next_hop_endpoint endpoint ≡ ok address
    → endpoint ≡ udp ++ 58 ∷ address
unfolding parse_next_hop_endpoint
parse_next_hop_endpoint_lem endpoint {address} h =
    let (transport, found, rest) = partition_colon endpoint in
    let (test, made) =
      raise_if-eq-ok (not found || not (eq_list transport udp) || eq_list rest []) _ (ok rest) h in
    let (separated, named) = parts found (eq_list transport udp) (eq_list rest []) test in
    let is_udp = eq_list→eq transport udp named in
    let same : rest ≡ address = ok_inj made in
    let split = partition_colon-append endpoint separated in
    subst (λ r. endpoint ≡ udp ++ 58 ∷ r) same (subst (λ t. endpoint ≡ t ++ 58 ∷ rest) is_udp split)
  where
    parts : (a b c : Bool) → (not a || not b || c) ≡ false → (a ≡ true) × (b ≡ true)
    parts a b c h' = ground arith

module _ (unix_us : ℤ → ℤ) where
  -- What the executor is given of an authorization.
  pub record IsConfigOf (a : RelaySessionAuthorization) (config : RelayExecutorConfig)
      : Type 0 where
    pub receiver : config.relay_receiver_index ≡ a.relay_receiver_index
    pub endpoint : a.next_hop.endpoint ≡ udp ++ 58 ∷ config.next_hop_address
    pub next_receiver : config.next_hop_receiver_index ≡ a.next_hop.receiver_index
    pub direction : config.direction ≡ a.direction
    pub generation : config.topology_generation ≡ a.topology_generation
    pub expiry : config.expires_at_unix_us ≡ unix_us a.expires_at
    pub packet_size : config.max_packet_size ≡ a.max_packet_size
    pub packets : config.max_packets ≡ a.max_packets
    pub bytes : config.max_bytes ≡ a.max_bytes

  -- One config for each authorization that is still valid, in the same order, and no other.
  pub data IsExact (now : ℤ)
      : List RelaySessionAuthorization → List RelayExecutorConfig → Type 0 where
    done : IsExact now [] []
    omitted :
        {a : RelaySessionAuthorization} {rest : List RelaySessionAuthorization}
        {configs : List RelayExecutorConfig}
        → a.expires_at ≤ℤ now
        → IsExact now rest configs
        → IsExact now (a ∷ rest) configs
    passed_on :
        {a : RelaySessionAuthorization} {rest : List RelaySessionAuthorization}
        {config : RelayExecutorConfig} {configs : List RelayExecutorConfig}
        → now +ℤ pos 1 ≤ℤ a.expires_at
        → IsConfigOf a config
        → IsExact now rest configs
        → IsExact now (a ∷ rest) (config ∷ configs)

  from_authorization-IsConfigOf :
      (a : RelaySessionAuthorization) {config : RelayExecutorConfig}
      → from_authorization unix_us a ≡ ok config
      → IsConfigOf a config
  unfolding from_authorization
  from_authorization-IsConfigOf a {config} h =
      let (address, parsed, h1) = >>=-eq-ok (parse_next_hop_endpoint a.next_hop.endpoint) _ h in
      let (_, _, h2) = >>=-eq-ok (require_u32 a.relay_receiver_index) _ h1 in
      let (_, _, h3) = >>=-eq-ok (require_u32 a.next_hop.receiver_index) _ h2 in
      let (_, _, h4) = >>=-eq-ok (require_ge (pos 1) a.topology_generation) _ h3 in
      let (_, _, h5) = >>=-eq-ok (require_ge (pos 0) (unix_us a.expires_at)) _ h4 in
      let (_, _, h6) = >>=-eq-ok (require_positive_if_any a.max_packet_size) _ h5 in
      let (_, _, h7) = >>=-eq-ok (require_positive_if_any a.max_packets) _ h6 in
      let (_, _, h8) = >>=-eq-ok (require_positive_if_any a.max_bytes) _ h7 in
      let same = ok_inj h8 in
      subst (IsConfigOf a) same (record {
        receiver = refl;
        endpoint = parse_next_hop_endpoint_lem a.next_hop.endpoint parsed;
        next_receiver = refl;
        direction = refl;
        generation = refl;
        expiry = refl;
        packet_size = refl;
        packets = refl;
        bytes = refl;
      })

  expiry_cases :
      (a : RelaySessionAuthorization) (now : ℤ)
      → (is_expired a now ≡ true → a.expires_at ≤ℤ now)
        × (is_expired a now ≡ false → now +ℤ pos 1 ≤ℤ a.expires_at)
  unfolding is_expired
  expiry_cases a now = let one = +ℤ_parts now (pos 1) in (λ h. ground arith, λ h. ground arith)

  -- When the configs are compiled, there is one for each authorization of the list that expires
  -- after now, in the same order, and none for any other: it has the receiver indexes, the
  -- direction, the generation, the expiry and the limits of the authorization, and the address
  -- behind `udp:` in the endpoint of its next hop.
  pub compile_relay_executor_configs-IsExact :
      (authorizations : List RelaySessionAuthorization) (now : ℤ)
      {configs : List RelayExecutorConfig}
      → compile_relay_executor_configs unix_us authorizations now ≡ ok configs
      → IsExact now authorizations configs
  unfolding compile_relay_executor_configs
  compile_relay_executor_configs-IsExact [] now {configs} h = subst (IsExact now []) (ok_inj h) done
  compile_relay_executor_configs-IsExact (a ∷ rest) now {configs} h =
      elim (Bool-cases (is_expired a now)) [
        | inl gone ↦ omitted ((expiry_cases a now).0 gone) (
            compile_relay_executor_configs-IsExact rest now
              (rw (compile_relay_executor_configs, gone) at h))
        | inr live ↦
            let h' = rw (compile_relay_executor_configs, live) at h in
            let (c, e, h1) = >>=-eq-ok (from_authorization unix_us a) _ h' in
            let (cs, e', h2) = >>=-eq-ok (compile_relay_executor_configs unix_us rest now) _ h1 in
            subst (IsExact now (a ∷ rest)) (ok_inj h2) (
              passed_on ((expiry_cases a now).1 live) (from_authorization-IsConfigOf a e)
                (compile_relay_executor_configs-IsExact rest now e'))
      ]
