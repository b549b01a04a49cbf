-- ===== src/Serialize.antt =====
-- pkg/frames/serialize and pkg/frames/proto/wire: frames as bytes.
pub mod Varint
pub mod Wire
pub mod Envelope
