-- ===== src/Tests.antt =====
-- Runs of the models at concrete inputs, and the theorems applied there.
pub mod Toy
mod Processors
mod Vad
mod Turn
mod Filters
mod Codecs
mod Transcript
mod Transport
mod Observers
mod Aggregators
mod Interruption
mod Pipeline
mod Extensions
mod Task
mod Texts
pub mod AudioBuffer
mod Recording
mod Serialize
mod Voice
mod VadProcessor
