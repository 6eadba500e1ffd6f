-- ===== src/Security.antt =====
-- python/gatherlink/security: replay protection, the transport envelope and session rotation.
pub mod Replay
pub mod Cipher
pub mod Envelope
pub mod Identity
pub mod Topology
pub mod Sessions
pub mod Relay
pub mod Noise
pub mod Rekey
pub mod RekeyControl
pub mod Coordinator
mod Tests
