-- ===== src/Processors/Aggregators.antt =====
-- pkg/processors/aggregators and pkg/processors/aggregator: text and transcriptions put together. Only
-- frames that go down reach an aggregator's own code; a frame that goes up is forwarded.
pub mod LlmText
pub mod Response
pub mod UserResponse
pub mod GatedContext
pub mod Summarizer
pub mod Buffer
