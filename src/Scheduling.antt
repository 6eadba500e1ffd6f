-- ===== src/Scheduling.antt =====
-- The policies of python/gatherlink/scheduling that are integer arithmetic and small states.
pub mod Congestion
pub mod Priority
pub mod Smoothing
pub mod Scoring
mod Tests
