-- ===== src/Transport.antt =====
-- pkg/transport and what it uses of pkg/utils.
pub mod Backoff
pub mod Reconnect
