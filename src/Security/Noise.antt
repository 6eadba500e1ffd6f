-- ===== src/Security/Noise.antt =====
-- python/gatherlink/security/noise.py: the two messages of a Noise IK handshake and the session that
-- each side makes of them. A message is a mapping in the source; here it has every field, with the
-- type that its sender gives it. A moment is a number of microseconds.
pub mod State
pub mod Messages
pub mod Directory
pub mod Handshake
pub mod Run
pub mod Ends
pub mod Agreement
pub mod Accepted
pub mod Replied
