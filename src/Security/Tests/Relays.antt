-- ===== src/Security/Tests/Relays.antt =====
-- Runs of python/gatherlink/security/relay_sessions.py on samples.
use gatherlink.Prelude.{
  ℕ, ◌+◌, ◌≤◌, ◌<◌, ◌≡◌, ◌≢◌, refl, Bool, true, false, ◌||◌, List, [], ◌∷◌, ◌++◌, All, Option, none,
  some, Result, ok, arith,
}
use gatherlink.Prelude.Int.{ℤ, pos, leb_ℤ, ◌+ℤ◌, ◌≤ℤ◌}
use gatherlink.Security.Topology.{TopologyBundleBody, ProvisionedNode, relay, node, holds_role}
use gatherlink.Security.Sessions.{seconds}
use gatherlink.Security.Sessions.Derive.Plan.{IsAuthorized}
use gatherlink.Security.Relay.{
  upstream_to_downstream, RelayNextHop, RelaySessionAuthorization, RelayExecutorConfig,
  authorize_relay_session, compile_relay_executor_configs,
}
use gatherlink.Security.Relay.Authorized.{authorize_relay_session-IsAuthorized}
use gatherlink.Security.Relay.Compiled.{IsExact, compile_relay_executor_configs-IsExact}
use gatherlink.Security.Tests.{repeat}
use gatherlink.Security.Tests.Samples.{public_of, sample_topology}

abbrev sample_hop : RelayNextHop
sample_hop = record {
  peer_node_id = repeat 32 11;
  endpoint = 117 ∷ 100 ∷ 112 ∷ 58 ∷ 104 ∷ 58 ∷ 49 ∷ [];
  receiver_index = pos 3;
}

-- The authorization that the samples give, which expires at a moment.
abbrev sample_authorization : ℕ → RelaySessionAuthorization
sample_authorization moment = record {
  relay_receiver_index = pos 2;
  upstream_peer_node_id = repeat 32 9;
  relay_node_id = repeat 32 10;
  next_hop = sample_hop;
  direction = upstream_to_downstream;
  topology_generation = pos 12;
  expires_at = pos moment;
  max_packet_size = none;
  max_packets = none;
  max_bytes = none;
}

authorized :
    authorize_relay_session sample_topology
      (public_of 9)
      (public_of 10)
      sample_hop
      upstream_to_downstream
      (pos 2)
      (pos 0)
      (pos 120)
      none
    ≡ ok (sample_authorization 120000000)
unfolding authorize_relay_session gatherlink.Security.Topology.require_node_role ◌+ℤ◌
    gatherlink.Prelude.Int.◌*ℤ◌
authorized = refl

authorize_relay_session-IsAuthorized_example :
    IsAuthorized sample_topology (repeat 32 9)
    × IsAuthorized sample_topology (repeat 32 10)
    × IsAuthorized sample_topology (repeat 32 11)
    × (holds_role sample_topology (repeat 32 10) relay ≡ true)
    × (repeat 32 9 ≢ repeat 32 10)
    × (repeat 32 11 ≢ repeat 32 10)
    × (pos 12 ≡ pos 12)
    × (pos 120000000 ≡ pos 0 +ℤ seconds (pos 120))
    × (leb_ℤ (pos 120) (pos 0) ≡ false)
authorize_relay_session-IsAuthorized_example =
    authorize_relay_session-IsAuthorized sample_topology (public_of 9) (public_of 10) sample_hop
      upstream_to_downstream (pos 2) (pos 0) (pos 120) none authorized

abbrev sample_config : RelayExecutorConfig
sample_config = record {
  relay_receiver_index = pos 2;
  next_hop_address = 104 ∷ 58 ∷ 49 ∷ [];
  next_hop_receiver_index = pos 3;
  direction = upstream_to_downstream;
  topology_generation = pos 12;
  expires_at_unix_us = pos 500;
  max_packet_size = none;
  max_packets = none;
  max_bytes = none;
}

-- The first of the two has expired.
abbrev sample_authorizations : List RelaySessionAuthorization
sample_authorizations = sample_authorization 100 ∷ sample_authorization 500 ∷ []

compiled :
    compile_relay_executor_configs (λ moment. moment) sample_authorizations (pos 100)
    ≡ ok (sample_config ∷ [])
unfolding compile_relay_executor_configs gatherlink.Security.Relay.from_authorization
compiled = refl

compile_relay_executor_configs-IsExact_example :
    IsExact (λ moment. moment) (pos 100) sample_authorizations (sample_config ∷ [])
compile_relay_executor_configs-IsExact_example =
    compile_relay_executor_configs-IsExact (λ moment. moment) sample_authorizations (pos 100)
      compiled
