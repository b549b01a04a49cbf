-- ===== src/Recording.antt =====
-- pkg/recording.
pub mod Files
pub mod Recorder
