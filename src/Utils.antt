-- ===== src/Utils.antt =====
-- pkg/utils: how text that comes in pieces is cut into sentences, and commands are taken out of it.
pub mod Sentences
pub mod Patterns
