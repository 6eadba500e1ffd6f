-- ===== src/Protocol/Sound.antt =====
-- What holds of every frame that the decoder returns, whatever bytes it was given.
pub mod Values
pub mod Step
