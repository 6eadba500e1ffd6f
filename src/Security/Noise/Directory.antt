-- ===== src/Security/Noise/Directory.antt =====
-- How python/gatherlink/security/noise.py looks identities up in a topology.
use gatherlink.Prelude.{List, [], ◌∷◌, eq_list, if◌then◌else◌, Result, ok, err, value_error, ◌>>=◌}
use gatherlink.Bytes.{Bytes}
use gatherlink.Text.{Text}
use gatherlink.Security.Identity.{Primitives, IdentityPublicRecord, public_bytes}
use gatherlink.Security.Topology.{ProvisionedNode, TopologyBundleBody, is_revoked, has_id}

-- The loop of `_topology_identity_by_node_id`.
unfoldable pub find_node_id : Text → List ProvisionedNode → Result IdentityPublicRecord
find_node_id node_id [] = err (value_error "packet must be silently dropped")
find_node_id node_id (n ∷ nodes) =
    if has_id node_id n then ok n.identity else find_node_id node_id nodes

unfoldable pub topology_identity_by_node_id :
    TopologyBundleBody → Text → Result IdentityPublicRecord
unfolding find_node_id
topology_identity_by_node_id topology node_id =
    if is_revoked topology node_id
    then err (value_error "packet must be silently dropped")
    else find_node_id node_id topology.nodes

module _ (p : Primitives) where
  -- The loop of `_topology_identity_by_x25519`: a record that does not decode raises its own error.
  unfoldable pub find_x25519 :
      TopologyBundleBody → Bytes → List ProvisionedNode → Result IdentityPublicRecord
  find_x25519 topology x25519_public [] = err (value_error "packet must be silently dropped")
  find_x25519 topology x25519_public (n ∷ nodes) =
      let rest = find_x25519 topology x25519_public nodes in
      if is_revoked topology n.identity.node_id
      then rest
      else public_bytes p n.identity >>= λ found.
          if eq_list found.2 x25519_public then ok n.identity else rest

  unfoldable pub topology_identity_by_x25519 :
      TopologyBundleBody → Bytes → Result IdentityPublicRecord
  unfolding find_x25519
  topology_identity_by_x25519 topology x25519_public =
      find_x25519 topology x25519_public topology.nodes
