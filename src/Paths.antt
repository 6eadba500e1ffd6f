-- ===== src/Paths.antt =====
-- The policies of python/gatherlink/paths.
pub mod Mtu
mod Tests
