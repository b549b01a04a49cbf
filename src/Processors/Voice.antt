-- ===== src/Processors/Voice.antt =====
-- pkg/processors/voice: the processors around the services of speech and language. A service is a
-- function that may differ from frame to frame; none is its error. Metrics and logs are left out, and
-- a frame that goes up is forwarded by each as it is.
pub mod Stt
pub mod Tts
pub mod Llm
