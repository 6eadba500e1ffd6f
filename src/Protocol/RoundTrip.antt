-- ===== src/Protocol/RoundTrip.antt =====
-- Decoding a control payload gives back what was encoded.
pub mod Sends
pub mod Writes
pub mod Paths
pub mod Quality
pub mod Pressure
pub mod Clocks
pub mod Names
pub mod Carries
pub mod NameLoops
pub mod PathLoops
pub mod EventLoops
pub mod Messages
pub mod Payload
pub mod Frames
