-- ===== src/Turn.antt =====
-- pkg/audio/turn and pkg/processors/voice/turn.go: when a user's turn begins and ends.
pub mod Controller
pub mod Alternation
pub mod Silence
pub mod Pauses
pub mod Processor
pub mod Audio
