-- ===== src/Lib.antt =====
-- A verification library for gatherlink, a userland transport that spreads UDP services over several
-- paths. The Python part of the program owns the protocol, the policy and the control plane; Rust
-- crates execute packets. The library models the Python code that decides what goes over the wire and
-- under which keys.
--
-- The parts, and the files that model them (source paths start at python/gatherlink):
--   Protocol    protocol.py. Frame is its data (ControlFrame and the message types, two of them from
--               time/offset.py), Constants and ControlType its constants, Limits its range checks and
--               code tables, Encode and Decode the control payload, with one function for each
--               `_encode_...` and `_decode_...`, DataFrame the headers. RoundTrip and Sound are proofs.
--   Security    security/. Replay is replay.py; Envelope is envelope.py over the interface Cipher;
--               Identity is what keys.py and secrets/identity.py give to session setup, with the
--               interface of the packages that they call; Topology is what secrets/provisioning.py gives;
--               Sessions is sessions.py (Rotation: plan_session_rotation; Derive: the key derivation and
--               the session plan); Relay is relay_sessions.py (Authorized, Compiled:
--               proofs); Rekey is the evaluation in
--               runtime/rekey.py with the security block of config/runtime.py. Noise is noise.py (State,
--               Messages, Directory, Handshake; the rest are proofs), RekeyControl is
--               rekey_control.py over it, and Coordinator the LiveRekeyCoordinator of runtime/rekey.py
--               (State, Start, Handle; the rest are proofs).
--   Scheduling  scheduling/. Congestion is congestion.py, Priority is service_priority.py, Smoothing is
--               smoothing.py, Scoring is scoring.py.
--   Paths       paths/. Mtu is mtu.py.
--   Prelude     what all share: tests on numbers, lists, exceptions, dicts and signed integers.
--   Bytes, Text, Bits   `int.to_bytes`, `int.from_bytes`, UTF-8 text, and the bits of a number.
--
-- How they interact: a session plan yields keys for one peer, the keys seal the frames that the
-- protocol encodes, the peer opens them and its replay window refuses what came before; the rotation
-- policy decides when a plan is replaced, the coordinator asks the peer for a replacement by a Noise
-- handshake in rekey messages, and the rekey evaluation puts it in place. The scheduling and MTU policies
-- turn what was measured into the numbers that the executor is given.
--
-- Conventions. A Python int is a signed integer over the native numbers, or a native number where the
-- code can only have one; bytes are lists of numbers, and what the code reads it reads as such. A str
-- is the list of its code points. None is `none`, an exception is a value of `Error`, and a method that
-- changes its object returns the new one beside its result. A write to a bytearray is the list of the
-- bytes that it appends, and two writes are joined by `⊕`. The decoder's cursor is the rest of the
-- payload behind it. A dict is a list of pairs in the order of insertion. A moment is a number of
-- microseconds; the clock and random draws are arguments. The rotation decision raises the OverflowError
-- of a moment outside the years 1 to 9999; elsewhere a moment is not bounded, so a lifetime that leads
-- out of those years is taken not to occur. The one function on fuel, which prints a
-- number in decimal, is given more fuel than the number has digits.
--
-- What stands outside is an interface: ChaCha20-Poly1305 (Cipher), and HKDF, SHA-256, X25519 and base64
-- (Identity), each with documented facts alone. The conversion of a moment to Unix microseconds, which
-- the code does in floating point, is a parameter of Relay. The JSON text of a message is a parameter:
-- `canonical` for the one that is hashed, `json` and `parse` for rekey messages (RekeyControl/Encoding has
-- the size checks around them), and `describe` for the text of an exception. `rounded` is the rounded
-- quotient that Scoring takes of a capacity. pydantic's messages are one fixed text.
--
-- Not modelled: clock estimation, cadence, coordination and rate budgets of the scheduler, which
-- may follow, in part in floating point; reading of the loosely typed status mapping and of JSON; command
-- line, files, sockets, processes, labs and the Rust crates, which are input and output or another
-- language.
pub mod Prelude
pub mod Bytes
pub mod Text
pub mod Bits
pub mod Protocol
pub mod Security
pub mod Scheduling
pub mod Paths
