-- ===== src/Security/Topology.antt =====
-- The signed topology of python/gatherlink/secrets/provisioning.py, as far as sessions read it, and
-- the checks of membership in python/gatherlink/security/sessions.py and relay_sessions.py.
use gatherlink.Prelude.{Bool, true, false, not, ◌&&◌, List, any, eq_list, Result, raise_if, ◌>>◌}
use gatherlink.Prelude.Int.{ℤ}
use gatherlink.Text.{Text}
use gatherlink.Security.Identity.{IdentityPublicRecord}

-- The values of `roles`.
pub data NodeRole : Type 0 where
  node relay exit helper : NodeRole

abbrev pub eq_role : NodeRole → NodeRole → Bool
eq_role node node = true
eq_role relay relay = true
eq_role exit exit = true
eq_role helper helper = true
eq_role a b = false

pub record ProvisionedNode : Type 0 where
  pub name : Text
  pub identity : IdentityPublicRecord
  pub roles : List NodeRole

pub record TopologyBundleBody : Type 0 where
  pub generation : ℤ
  pub issuer_node_id : Text
  pub nodes : List ProvisionedNode
  pub revoked_node_ids : List Text

-- `node_id in topology.revoked_node_ids`
abbrev pub is_revoked : TopologyBundleBody → Text → Bool
is_revoked topology node_id = any (eq_list node_id) topology.revoked_node_ids

abbrev pub has_id : Text → ProvisionedNode → Bool
has_id node_id n = eq_list n.identity.node_id node_id

-- `any(node.identity.node_id == node_id for node in topology.nodes)`
abbrev pub is_member : TopologyBundleBody → Text → Bool
is_member topology node_id = any (has_id node_id) topology.nodes

-- `_require_topology_member` of sessions.py
unfoldable pub require_topology_member :
    TopologyBundleBody → IdentityPublicRecord → Result (Unit {0})
require_topology_member topology identity = do
  raise_if (is_revoked topology identity.node_id) "identity is revoked by topology"
  raise_if (not (is_member topology identity.node_id)) "identity is not present in topology"

-- `_require_node` of relay_sessions.py
unfoldable pub require_node : TopologyBundleBody → Text → Result (Unit {0})
require_node topology node_id = do
  raise_if (is_revoked topology node_id) "relay session references a revoked node"
  raise_if (not (is_member topology node_id)) "relay session references a node outside topology"

-- Some node of that id has the role.
abbrev pub holds_role : TopologyBundleBody → Text → NodeRole → Bool
holds_role topology node_id role =
    any (λ n. has_id node_id n && any (eq_role role) n.roles) topology.nodes

-- The message names the role in the source, which is "relay" at its one call.
unfoldable pub require_node_role : TopologyBundleBody → Text → NodeRole → Result (Unit {0})
unfolding require_node
require_node_role topology node_id role = do
  require_node topology node_id
  raise_if (not (holds_role topology node_id role)) "node is not authorized for relay role"
