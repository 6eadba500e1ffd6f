-- ===== src/Protocol.antt =====
-- python/gatherlink/protocol.py: the v1 frames and the control metaband.
pub mod Constants
pub mod ControlType
pub mod Frame
pub mod Limits
pub mod Encode
pub mod Decode
pub mod DataFrame
pub mod RoundTrip
pub mod Sound
mod Tests
