-- ===== src/Security/Relay.antt =====
-- python/gatherlink/security/relay_sessions.py: the authorizations of relay sessions and what Rust's
-- relay executor is given of them. A moment is the number of microseconds since the Unix epoch.
pub mod Authorized
pub mod Compiled
use gatherlink.Prelude.{
  ℕ, ◌+◌, ◌<◌, Bool, true, false, not, ◌||◌, ◌&&◌, List, [], ◌∷◌, Option, none, some, ◌==◌, eq_list,
  if◌then◌else◌, Result, ok, err, value_error, raise_if, ◌>>=◌, ◌>>◌,
}
use gatherlink.Prelude.Int.{ℤ, pos, leb_ℤ, ltb_ℤ, ◌+ℤ◌}
use gatherlink.Text.{Text}
use gatherlink.Security.Identity.{IdentityPublicRecord}
use gatherlink.Security.Topology.{TopologyBundleBody, relay, require_node, require_node_role}
use gatherlink.Security.Sessions.{seconds}

pub data RelayDirection : Type 0 where
  upstream_to_downstream downstream_to_upstream : RelayDirection

pub record RelayNextHop : Type 0 where
  pub peer_node_id : Text
  pub endpoint : Text
  pub receiver_index : ℤ

-- `allowed_packet_type` has the one value "encrypted_data" and is left out.
pub record RelaySessionAuthorization : Type 0 where
  pub relay_receiver_index : ℤ
  pub upstream_peer_node_id : Text
  pub relay_node_id : Text
  pub next_hop : RelayNextHop
  pub direction : RelayDirection
  pub topology_generation : ℤ
  pub expires_at : ℤ
  pub max_packet_size : Option ℤ
  pub max_packets : Option ℤ
  pub max_bytes : Option ℤ

-- `Field(ge=0, le=2**32 - 1)` and `Field(ge=1)`, whose messages pydantic writes.
abbrev pub require_u32 : ℤ → Result (Unit {0})
require_u32 value =
    raise_if (ltb_ℤ value (pos 0) || ltb_ℤ (pos 4294967295) value) "validation error"

abbrev pub require_ge : ℤ → ℤ → Result (Unit {0})
require_ge bound value = raise_if (ltb_ℤ value bound) "validation error"

abbrev pub require_positive_if_any : Option ℤ → Result (Unit {0})
require_positive_if_any none = ok tt
require_positive_if_any (some value) = require_ge (pos 1) value

-- The constructor `RelayNextHop(...)`.
abbrev pub new_next_hop : RelayNextHop → Result RelayNextHop
new_next_hop h = require_u32 h.receiver_index >> ok h

-- The constructor of an authorization: the limits of its fields, then `validate_distinct_hops`.
unfoldable pub new_authorization : RelaySessionAuthorization → Result RelaySessionAuthorization
new_authorization a = do
  require_u32 a.relay_receiver_index
  require_ge (pos 1) a.topology_generation
  require_positive_if_any a.max_packet_size
  require_positive_if_any a.max_packets
  require_positive_if_any a.max_bytes
  raise_if (eq_list a.upstream_peer_node_id a.relay_node_id)
      "relay upstream peer must differ from relay node"
  raise_if (eq_list a.next_hop.peer_node_id a.relay_node_id)
      "relay next hop must differ from relay node"
  ok a

unfoldable pub is_expired : RelaySessionAuthorization → ℤ → Bool
is_expired a now = leb_ℤ a.expires_at now

unfoldable pub allows_packet : RelaySessionAuthorization → ℤ → ℤ → Bool
unfolding is_expired
allows_packet a packet_size now =
    if is_expired a now
    then false
    else elim a.max_packet_size [ none ↦ true | some size ↦ leb_ℤ packet_size size ]

-- `next_hop_transport` has the one value "udp" and is left out.
pub record RelayExecutorConfig : Type 0 where
  pub relay_receiver_index : ℤ
  pub next_hop_address : Text
  pub next_hop_receiver_index : ℤ
  pub direction : RelayDirection
  pub topology_generation : ℤ
  pub expires_at_unix_us : ℤ
  pub max_packet_size : Option ℤ
  pub max_packets : Option ℤ
  pub max_bytes : Option ℤ

-- `endpoint.partition(":")`: before the first colon, whether there is one, and after it.
unfoldable pub partition_colon : Text → Text × Bool × Text
partition_colon [] = ([], false, [])
partition_colon (c ∷ text) =
    let (before, found, rest) = partition_colon text in
    if c == 58 then ([], true, text) else (c ∷ before, found, rest)

abbrev pub udp : Text
udp = 117 ∷ 100 ∷ 112 ∷ []

-- `_parse_next_hop_endpoint`: the transport is always "udp", so the address alone comes back.
unfoldable pub parse_next_hop_endpoint : Text → Result Text
unfolding partition_colon
parse_next_hop_endpoint endpoint =
    let (transport, separator, address) = partition_colon endpoint in
    raise_if (not separator || not (eq_list transport udp) || eq_list address [])
      "relay next-hop endpoint must use udp:host:port or udp:[ipv6]:port"
    >> ok address

-- `unix_us` is `int(moment.timestamp() * 1_000_000)`, whose floating-point product may fall short of
-- the moment by one.
module _ (unix_us : ℤ → ℤ) where
  -- `RelayExecutorConfig.from_authorization`
  unfoldable pub from_authorization : RelaySessionAuthorization → Result RelayExecutorConfig
  unfolding parse_next_hop_endpoint
  from_authorization a = do
    address ← parse_next_hop_endpoint a.next_hop.endpoint
    require_u32 a.relay_receiver_index
    require_u32 a.next_hop.receiver_index
    require_ge (pos 1) a.topology_generation
    require_ge (pos 0) (unix_us a.expires_at)
    require_positive_if_any a.max_packet_size
    require_positive_if_any a.max_packets
    require_positive_if_any a.max_bytes
    ok (record {
      relay_receiver_index = a.relay_receiver_index;
      next_hop_address = address;
      next_hop_receiver_index = a.next_hop.receiver_index;
      direction = a.direction;
      topology_generation = a.topology_generation;
      expires_at_unix_us = unix_us a.expires_at;
      max_packet_size = a.max_packet_size;
      max_packets = a.max_packets;
      max_bytes = a.max_bytes;
    })

  -- `compile_relay_executor_configs`: the expired ones are omitted.
  unfoldable pub compile_relay_executor_configs :
      List RelaySessionAuthorization → ℤ → Result (List RelayExecutorConfig)
  unfolding is_expired
  compile_relay_executor_configs [] now = ok []
  compile_relay_executor_configs (a ∷ authorizations) now =
      let rest = compile_relay_executor_configs authorizations now in
      if is_expired a now
      then rest
      else from_authorization a >>= λ config. rest >>= λ configs. ok (config ∷ configs)

-- `now` is given: the default is the wall clock.
unfoldable pub authorize_relay_session :
    TopologyBundleBody
    → IdentityPublicRecord
    → IdentityPublicRecord
    → RelayNextHop
    → RelayDirection
    → ℤ
    → ℤ
    → ℤ
    → Option ℤ
    → Result RelaySessionAuthorization
unfolding new_authorization
authorize_relay_session topology upstream_peer relay_id next_hop direction index now
      lifetime_seconds max_packet_size =
    do
      raise_if (leb_ℤ lifetime_seconds (pos 0)) "relay session lifetime must be positive"
      require_node_role topology relay_id.node_id relay
      require_node topology upstream_peer.node_id
      require_node topology next_hop.peer_node_id
      new_authorization (record {
        relay_receiver_index = index;
        upstream_peer_node_id = upstream_peer.node_id;
        relay_node_id = relay_id.node_id;
        next_hop = next_hop;
        direction = direction;
        topology_generation = topology.generation;
        expires_at = now +ℤ seconds lifetime_seconds;
        max_packet_size = max_packet_size;
        max_packets = none;
        max_bytes = none;
      })
