-- ===== src/Security/Relay/Authorized.antt =====
-- What python/gatherlink/security/relay_sessions.py authorizes, and what it passes on.
use gatherlink.Prelude.{
  ◌≡◌, ◌≢◌, refl, true, false, eq_list, eq_list_refl, Option, none, ok, raise_if-eq-ok, >>=-eq-ok,
  arith,
}
use gatherlink.Prelude.Int.{ℤ, pos, leb_ℤ, ◌+ℤ◌}
use gatherlink.Text.{Text}
use gatherlink.Security.Identity.{IdentityPublicRecord}
use gatherlink.Security.Topology.{
  TopologyBundleBody, relay, require_node, require_node_role, holds_role,
}
use gatherlink.Security.Sessions.Derive.Plan.{IsAuthorized}
use gatherlink.Security.Sessions.{seconds}
use gatherlink.Security.Relay.{
  RelayDirection, RelayNextHop, RelaySessionAuthorization, new_authorization,
  authorize_relay_session,
}

require_node_sound :
    (topology : TopologyBundleBody) (node_id : Text)
    → require_node topology node_id ≡ ok tt
    → IsAuthorized topology node_id
unfolding require_node
require_node_sound topology node_id h = ground arith

require_node_role_sound :
    (topology : TopologyBundleBody) (node_id : Text)
    → require_node_role topology node_id relay ≡ ok tt
    → IsAuthorized topology node_id × (holds_role topology node_id relay ≡ true)
unfolding require_node_role require_node
require_node_role_sound topology node_id h = ground arith

new_authorization_sound :
    (a : RelaySessionAuthorization) {b : RelaySessionAuthorization}
    → new_authorization a ≡ ok b
    → (b ≡ a)
      × (eq_list a.upstream_peer_node_id a.relay_node_id ≡ false)
      × (eq_list a.next_hop.peer_node_id a.relay_node_id ≡ false)
unfolding new_authorization
new_authorization_sound a {b} h = ground arith

-- When a relay session is authorized, the topology lists its three nodes and revokes none, the
-- middle one has the relay role and differs from the other two, the generation is the
-- topology's, and the session expires a positive lifetime from now.
pub authorize_relay_session-IsAuthorized :
    (topology : TopologyBundleBody) (upstream_peer relay_id : IdentityPublicRecord)
    (next_hop : RelayNextHop) (direction : RelayDirection) (index now lifetime_seconds : ℤ)
    (max_packet_size : Option ℤ) {a : RelaySessionAuthorization}
    → authorize_relay_session topology upstream_peer relay_id next_hop direction index now
        lifetime_seconds max_packet_size
      ≡ ok a
    → IsAuthorized topology a.upstream_peer_node_id
      × IsAuthorized topology a.relay_node_id
      × IsAuthorized topology a.next_hop.peer_node_id
      × (holds_role topology a.relay_node_id relay ≡ true)
      × (a.upstream_peer_node_id ≢ a.relay_node_id)
      × (a.next_hop.peer_node_id ≢ a.relay_node_id)
      × (a.topology_generation ≡ topology.generation)
      × (a.expires_at ≡ now +ℤ seconds lifetime_seconds)
      × (leb_ℤ lifetime_seconds (pos 0) ≡ false)
unfolding authorize_relay_session
authorize_relay_session-IsAuthorized topology upstream_peer relay_id next_hop direction index now
      lifetime_seconds max_packet_size {a} h =
    let (positive, h1) = raise_if-eq-ok (leb_ℤ lifetime_seconds (pos 0)) _ _ h in
    let (u, e1, h2) = >>=-eq-ok (require_node_role topology relay_id.node_id relay) _ h1 in
    let (v, e2, h3) = >>=-eq-ok (require_node topology upstream_peer.node_id) _ h2 in
    let (w, e3, h4) = >>=-eq-ok (require_node topology next_hop.peer_node_id) _ h3 in
    let (same, d1, d2) =
      new_authorization_sound
        (record {
          relay_receiver_index = index;
          upstream_peer_node_id = upstream_peer.node_id;
          relay_node_id = relay_id.node_id;
          next_hop = next_hop;
          direction = direction;
          topology_generation = topology.generation;
          expires_at = now +ℤ seconds lifetime_seconds;
          max_packet_size = max_packet_size;
          max_packets = none;
          max_bytes = none;
        })
        h4 in
    let (r, role) = require_node_role_sound topology relay_id.node_id e1 in
    let up = require_node_sound topology upstream_peer.node_id e2 in
    let down = require_node_sound topology next_hop.peer_node_id e3 in
    rw same (
      up,
      r,
      down,
      role,
      apart upstream_peer.node_id relay_id.node_id d1,
      apart next_hop.peer_node_id relay_id.node_id d2,
      refl,
      refl,
      positive,
    )
  where
    apart : (x y : Text) → eq_list x y ≡ false → x ≢ y
    apart x y d e = let r = eq_list_refl y in absurd (cc (d, e, r))
