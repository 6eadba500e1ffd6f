-- ===== src/Security/Rekey/Restored.antt =====
-- `authenticated_session_from_runtime_config` of python/gatherlink/runtime/rekey.py: the session that
-- a runtime configuration describes.
use gatherlink.Prelude.{◌≡◌, refl, subst, [], ◌∷◌, Option, none, some, ok}
use gatherlink.Prelude.Maybe.{◌>>=◌}
use gatherlink.Security.Sessions.{
  StaticSessionRole, initiator, responder, other_role, StaticTransportSecurityMaterial,
  new_security_material, AuthenticatedSessionPlan, default_rekey_after_packets,
  default_rekey_after_bytes,
}
use gatherlink.Security.Rekey.{
  authenticated_source, RuntimeSecurityConfig, RuntimeConfig, or_int, or_int_if_any,
  runtime_security_from_session, compile_security, security_with,
}

module _ (Session Rest : Type 0) where
  -- `source_mode` is "authenticated" and `sessions` is empty.
  abbrev has_one_session : RuntimeSecurityConfig Session → Option (Unit {0})
  has_one_session s = elim s.source_mode [
    | authenticated_source ↦ elim s.sessions [ [] ↦ some tt | x ∷ xs ↦ none ]
    | _ ↦ none
  ]

  -- The eight fields of `required` must all be there.
  unfoldable pub authenticated_session_from_runtime_config :
      RuntimeConfig Session Rest → Option AuthenticatedSessionPlan
  unfolding new_security_material
  authenticated_session_from_runtime_config config = do
    let s = config.security
    _ ← has_one_session s
    local_node_id ← s.local_node_id
    peer_node_id ← s.peer_node_id
    topology_generation ← s.topology_generation
    role ← s.session_role
    created_at ← s.session_created_at
    expires_at ← s.session_expires_at
    send_key ← s.send_key
    receive_key ← s.receive_key
    some (record {
      local_node_id = local_node_id;
      peer_node_id = peer_node_id;
      topology_generation = topology_generation;
      receiver_index = s.receiver_index;
      role = role;
      created_at = created_at;
      expires_at = expires_at;
      rekey_after_packets = or_int_if_any s.rekey_after_packets default_rekey_after_packets;
      rekey_after_bytes = or_int_if_any s.rekey_after_bytes default_rekey_after_bytes;
      security = some (
          new_security_material s.receiver_index send_key receive_key (some s.local_receiver_index)
            (some s.remote_receiver_index));
    })

  -- The session as it comes back from a configuration: an index or a limit of 0 has its default, and
  -- the receiver index is the one that the peer receives on.
  abbrev pub restored :
      AuthenticatedSessionPlan → StaticTransportSecurityMaterial → AuthenticatedSessionPlan
  restored session m =
      let remote = or_int m.remote_receiver_index session.receiver_index in
      record session {
        receiver_index = remote;
        rekey_after_packets = or_int session.rekey_after_packets default_rekey_after_packets;
        rekey_after_bytes = or_int session.rekey_after_bytes default_rekey_after_bytes;
        security = some (record {
          receiver_index = remote;
          send_key = m.send_key;
          receive_key = m.receive_key;
          local_receiver_index = or_int m.local_receiver_index session.receiver_index;
          remote_receiver_index = remote;
        });
      }

  -- When a session with key material is compiled into a configuration, reading the session back
  -- gives the same identities, generation, role, times and keys, with the peer's index as its
  -- receiver index and the defaults for an index or a limit of 0.
  pub authenticated_session_from_runtime_config-runtime_security_from_session :
      (session : AuthenticatedSessionPlan) (m : StaticTransportSecurityMaterial)
      (config : RuntimeConfig Session Rest)
      → session.security ≡ some m
      → runtime_security_from_session Session Rest session ≡ ok config.security
      → authenticated_session_from_runtime_config config ≡ some (restored session m)
  unfolding runtime_security_from_session compile_security authenticated_session_from_runtime_config
      new_security_material
  authenticated_session_from_runtime_config-runtime_security_from_session session m config e h =
      compiled session.role refl
    where
      read :
          security_with Session Rest session m ≡ config.security
          → authenticated_session_from_runtime_config config ≡ some (restored session m)
      read same =
          subst
            (λ (s : RuntimeSecurityConfig Session).
              authenticated_session_from_runtime_config
                (record { security = s; rest = config.rest })
              ≡ some (restored session m))
            same refl

      compiled :
          (role : StaticSessionRole)
          → session.role ≡ role
          → authenticated_session_from_runtime_config config ≡ some (restored session m)
      compiled initiator r = let h' = rw (e, r) at h in read (cc h')
      compiled responder r = let h' = rw (e, r) at h in read (cc h')
      compiled other_role r = let h' = rw (e, r) at h in absurd (cc h')
