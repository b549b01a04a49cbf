-- ===== src/Observers.antt =====
-- pkg/observers: what watches the frames without changing them.
pub mod TurnTracking
pub mod Latency
pub mod Transcript
