-- ===== src/Extensions.antt =====
-- pkg/extensions: voicemail detection, and the navigation of telephone menus.
pub mod Voicemail
pub mod Ivr
