-- ===== src/Security/Tests/Rekeying.antt =====
-- Runs of the coordinator of python/gatherlink/runtime/rekey.py on samples.
use gatherlink.Prelude.{
  ℕ, ◌≡◌, refl, true, [], ◌∷◌, Option, none, some, String, Error, value_error, Result, ok, err,
}
use gatherlink.Prelude.Int.{ℤ, pos}
use gatherlink.Prelude.TextDicts.{lookup_text, insert_text}
use gatherlink.Bytes.{Bytes}
use gatherlink.Security.Noise.Messages.{NoiseInitiation}
use gatherlink.Security.RekeyControl.Messages.{
  PendingRekeyInitiation, rekey_initiation, rekey_response, initiation, RekeyControlMessage,
}
use gatherlink.Security.Coordinator.State.{PendingByPeer, OutboundMessage, HandleResult}
use gatherlink.Security.Coordinator.Start.{maybe_start}
use gatherlink.Security.Coordinator.Handle.{handle_peer_payload}
use gatherlink.Security.Coordinator.Pending.{IsWellFormed}
use gatherlink.Security.Coordinator.Steps.{
  starts, handles, Reach, created, called, Reach-IsWellFormed,
}
use gatherlink.Security.Coordinator.Retries.{maybe_start-maybe_start}
use gatherlink.Security.Coordinator.Raises.{IsUncaught, handle_peer_payload-IsUncaught}
use gatherlink.Security.Tests.{repeat, toy_aead, toy_primitives}
use gatherlink.Security.Tests.Samples.{
  identity_of, public_of, sample_topology, sample_plan, sample_pending, runtime_of, sample_status,
}

abbrev toy_canonical : NoiseInitiation → Bytes
toy_canonical message = []

abbrev toy_json : RekeyControlMessage → Bytes
toy_json message = []

-- A response of the node 10 for a receiver index that the session does not have.
abbrev stale_response : RekeyControlMessage
stale_response = record {
  message_type = rekey_response;
  sender_node_id = repeat 32 10;
  peer_node_id = repeat 32 9;
  topology_generation = pos 12;
  current_receiver_index = pos 999;
  created_at = pos 3000000;
  expires_at = none;
  noise = none;
  reason = none;
}

abbrev toy_parse : Bytes → Result RekeyControlMessage
toy_parse payload = ok stale_response

abbrev toy_describe : Error → String
toy_describe e = "failed"

-- An initiation to a peer.
abbrev sample_waiting : ℕ → PendingRekeyInitiation
sample_waiting peer = record {
  pending_noise = sample_pending;
  message = record {
    message_type = rekey_initiation;
    sender_node_id = repeat 32 9;
    peer_node_id = repeat 32 peer;
    topology_generation = pos 12;
    current_receiver_index = pos 5;
    created_at = pos 1000000;
    expires_at = some (pos 31000000);
    noise = some (initiation sample_pending.message);
    reason = none;
  };
}

-- The call that starts a replacement, 20 seconds before the session expires.
abbrev run_start : ℤ → PendingByPeer → Result (Option OutboundMessage) × PendingByPeer
run_start now pending =
    maybe_start toy_primitives toy_aead toy_canonical toy_json ℕ ℕ (identity_of 9) (public_of 10)
      sample_topology (sample_plan 5) (runtime_of 5) sample_status now (pos 60) (pos 30) 77
      (repeat 32 21) pending

abbrev run_handle : PendingByPeer → PendingByPeer
run_handle pending =
    (handle_peer_payload toy_primitives toy_aead toy_canonical toy_json toy_parse toy_describe ℕ ℕ
      (identity_of 9) [] sample_topology (sample_plan 5) (runtime_of 5) sample_status
      (pos 103000000) 88 77 (repeat 32 22) pending).1

sent :
    (run_start (pos 100000000) []).0
    ≡ ok (
        some
          (record { peer_node_id = repeat 32 10; message_type = rekey_initiation; payload = [] }))
unfolding maybe_start gatherlink.Security.Rekey.evaluate_rekey_from_status
    gatherlink.Security.Sessions.Rotation.plan_session_rotation gatherlink.Prelude.Int.◌-ℤ◌
    gatherlink.Prelude.Int.◌*ℤ◌ gatherlink.Security.RekeyControl.Exchange.create_rekey_initiation
    gatherlink.Security.Identity.from_identity
    gatherlink.Security.Noise.Handshake.create_noise_ik_initiation
    gatherlink.Security.Topology.require_topology_member gatherlink.Security.Identity.public_bytes
    gatherlink.Security.Noise.State.for_pair gatherlink.Security.Sessions.Derive.int_text
    gatherlink.Security.Identity.x25519_shared_secret
    gatherlink.Security.RekeyControl.Encoding.encode
    gatherlink.Security.Sessions.Rotation.is_datetime gatherlink.Prelude.Int.◌+ℤ◌
sent = refl

-- Another peer has been asked in between.
abbrev asked_another : PendingByPeer
asked_another = insert_text (repeat 32 11) (sample_waiting 11) (run_start (pos 100000000) []).1

still_waiting :
    lookup_text (repeat 32 10) asked_another
    ≡ lookup_text (repeat 32 10) (run_start (pos 100000000) []).1
unfolding maybe_start gatherlink.Security.Rekey.evaluate_rekey_from_status
    gatherlink.Security.Sessions.Rotation.plan_session_rotation gatherlink.Prelude.Int.◌-ℤ◌
    gatherlink.Prelude.Int.◌*ℤ◌ gatherlink.Security.RekeyControl.Exchange.create_rekey_initiation
    gatherlink.Security.Identity.from_identity
    gatherlink.Security.Noise.Handshake.create_noise_ik_initiation
    gatherlink.Security.Topology.require_topology_member gatherlink.Security.Identity.public_bytes
    gatherlink.Security.Noise.State.for_pair gatherlink.Security.Sessions.Derive.int_text
    gatherlink.Security.Identity.x25519_shared_secret
    gatherlink.Security.RekeyControl.Encoding.encode
    gatherlink.Security.Sessions.Rotation.is_datetime gatherlink.Prelude.Int.◌+ℤ◌
still_waiting = refl

maybe_start-maybe_start_example : run_start (pos 110000000) asked_another ≡ (ok none, asked_another)
unfolding gatherlink.Prelude.Int.◌+ℤ◌ gatherlink.Prelude.Int.◌*ℤ◌
maybe_start-maybe_start_example =
    maybe_start-maybe_start toy_primitives toy_aead toy_canonical toy_json ℕ ℕ (identity_of 9)
      (public_of 10) sample_topology (sample_plan 5) (runtime_of 5) sample_status (pos 100000000)
      (pos 60) (pos 30) 77 (repeat 32 21) [] sent asked_another still_waiting sample_topology
      (sample_plan 5) (runtime_of 5) sample_status (pos 110000000) (pos 60) (pos 30) 77
      (repeat 32 21) refl

reached :
    Reach toy_primitives toy_aead toy_canonical toy_json toy_parse toy_describe ℕ ℕ
      (identity_of 9)
      (run_handle (run_start (pos 100000000) []).1)
reached =
    called
      (called created (
        starts (public_of 10) sample_topology (sample_plan 5) (runtime_of 5) sample_status
          (pos 100000000) (pos 60) (pos 30) 77 (repeat 32 21) []))
      (handles [] sample_topology (sample_plan 5) (runtime_of 5) sample_status (pos 103000000) 88 77
        (repeat 32 22) (run_start (pos 100000000) []).1)

Reach-IsWellFormed_example :
    IsWellFormed (repeat 32 9) (run_handle (run_start (pos 100000000) []).1)
unfolding gatherlink.Security.Identity.from_identity
Reach-IsWellFormed_example =
    Reach-IsWellFormed toy_primitives toy_aead toy_canonical toy_json toy_parse toy_describe ℕ ℕ
      (identity_of 9) reached

-- The initiation that waits for the stale response.
abbrev waiting : PendingByPeer
waiting = (repeat 32 10, sample_waiting 10) ∷ []

abbrev run_response : Result (HandleResult ℕ ℕ) × PendingByPeer
run_response =
    handle_peer_payload toy_primitives toy_aead toy_canonical toy_json toy_parse toy_describe ℕ ℕ
      (identity_of 9) [] sample_topology (sample_plan 5) (runtime_of 5) sample_status (pos 3000000)
      88 77 (repeat 32 22) waiting

raised : run_response.0 ≡ err (value_error "rekey message current receiver index is stale")
unfolding handle_peer_payload
    gatherlink.Security.RekeyControl.Exchange.complete_rekey_response_payload
    gatherlink.Security.Identity.from_identity gatherlink.Security.RekeyControl.Encoding.decode
raised = refl

handle_peer_payload-IsUncaught_example :
    IsUncaught toy_primitives toy_aead toy_canonical toy_json toy_parse toy_describe ℕ ℕ
      (identity_of 9)
      []
      sample_topology
      (sample_plan 5)
      (runtime_of 5)
      sample_status
      (pos 3000000)
      77
      88
      (repeat 32 22)
      waiting
      (value_error "rekey message current receiver index is stale")
    × (run_response.1 ≡ waiting)
handle_peer_payload-IsUncaught_example =
    handle_peer_payload-IsUncaught toy_primitives toy_aead toy_canonical toy_json toy_parse
      toy_describe ℕ ℕ (identity_of 9) [] sample_topology (sample_plan 5) (runtime_of 5)
      sample_status (pos 3000000) 77 88 (repeat 32 22) waiting raised refl
