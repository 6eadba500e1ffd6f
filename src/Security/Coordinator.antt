-- ===== src/Security/Coordinator.antt =====
-- `LiveRekeyCoordinator` of python/gatherlink/runtime/rekey.py: the pending initiations by peer, and
-- what starts and ends them. A method returns its result, or the exception that leaves it, beside the
-- pending initiations as they are then.
pub mod State
pub mod Start
pub mod Handle
pub mod Pending
pub mod Steps
pub mod Retries
pub mod Raises
