-- ===== src/Processors.antt =====
-- pkg/processors and the processors built on it.
pub mod Queue
pub mod Filters
pub mod Gated
pub mod Dtmf
pub mod Interruption
pub mod Aggregators
pub mod AudioBuffer
pub mod Voice
pub mod VadProcessor
