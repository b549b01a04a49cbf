-- ===== src/Audio.antt =====
-- pkg/audio: PCM samples, and the packages below it.
pub mod Pcm
pub mod Floats
pub mod Vad
pub mod G711
pub mod Mix
pub mod Wav
pub mod Interruptions
