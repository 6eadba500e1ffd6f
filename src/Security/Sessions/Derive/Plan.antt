-- ===== src/Security/Sessions/Derive/Plan.antt =====
-- What holds of a plan that `plan_authenticated_static_session` of
-- python/gatherlink/security/sessions.py returns.
use gatherlink.Prelude.{◌≡◌, true, false, some, ok, raise_if-eq-ok, >>=-eq-ok, arith}
use gatherlink.Prelude.Int.{ℤ, pos, leb_ℤ, ◌+ℤ◌}
use gatherlink.Text.{Text}
use gatherlink.Security.Identity.{Primitives, NodeIdentity, IdentityPublicRecord, from_identity}
use gatherlink.Security.Topology.{
  TopologyBundleBody, is_revoked, is_member, require_topology_member,
}
use gatherlink.Security.Sessions.{
  StaticSessionRole, AuthenticatedSessionPlan, StaticTransportSecurityMaterial, seconds,
}
use gatherlink.Security.Sessions.Derive.{
  authenticated_session_context, ordered_ids, derive_static_transport_security,
  plan_authenticated_static_session,
}

-- A node that the topology lists and does not revoke.
abbrev pub IsAuthorized : TopologyBundleBody → Text → Type 0
IsAuthorized topology node_id =
    (is_revoked topology node_id ≡ false) × (is_member topology node_id ≡ true)

require_topology_member_sound :
    (topology : TopologyBundleBody) (identity : IdentityPublicRecord)
    → require_topology_member topology identity ≡ ok tt
    → IsAuthorized topology identity.node_id
unfolding require_topology_member
require_topology_member_sound topology identity h = ground arith

module _ (p : Primitives) where
  -- When a plan is made, the topology lists both nodes and revokes neither, the plan has the
  -- topology's generation and key material, and it expires after its creation by the lifetime,
  -- which is positive.
  pub plan_authenticated_static_session-IsAuthorized :
      (local_identity : NodeIdentity) (peer_identity : IdentityPublicRecord)
      (topology : TopologyBundleBody) (role : StaticSessionRole)
      (receiver_index now lifetime_seconds : ℤ) {plan : AuthenticatedSessionPlan}
      → plan_authenticated_static_session p local_identity peer_identity topology role
          receiver_index now lifetime_seconds
        ≡ ok plan
      → IsAuthorized topology plan.local_node_id
        × IsAuthorized topology plan.peer_node_id
        × (plan.topology_generation ≡ topology.generation)
        × (plan.expires_at ≡ plan.created_at +ℤ seconds lifetime_seconds)
        × (leb_ℤ lifetime_seconds (pos 0) ≡ false)
        × ((m : StaticTransportSecurityMaterial) × (plan.security ≡ some m))
  unfolding plan_authenticated_static_session ordered_ids
  plan_authenticated_static_session-IsAuthorized local_identity peer_identity topology role
        receiver_index now lifetime_seconds {plan} h =
      let (positive, h1) = raise_if-eq-ok (leb_ℤ lifetime_seconds (pos 0)) _ _ h in
      let me = from_identity p local_identity in
      let (u, e1, h2) = >>=-eq-ok (require_topology_member topology me) _ h1 in
      let (v, e2, h3) = >>=-eq-ok (require_topology_member topology peer_identity) _ h2 in
      let ids = ordered_ids p role me.node_id peer_identity.node_id in
      let (context, e3, h4) =
        >>=-eq-ok (authenticated_session_context p topology ids.0 ids.1) _ h3 in
      let (security, e4, h5) =
        >>=-eq-ok
          (derive_static_transport_security p local_identity peer_identity role receiver_index
            context)
          _ h4 in
      let mine = require_topology_member_sound topology me e1 in
      let theirs = require_topology_member_sound topology peer_identity e2 in
      let local_id : plan.local_node_id ≡ me.node_id = cc h5 in
      let peer_id : plan.peer_node_id ≡ peer_identity.node_id = cc h5 in
      let made : plan.created_at ≡ now = cc h5 in
      (rw local_id mine, rw peer_id theirs, cc h5, rw made (cc h5), positive, (security, cc h5))
