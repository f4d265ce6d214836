-- ===== src/Util.antt =====
-- The helpers (src/util).
pub mod Encoding
pub mod Base64
pub mod Queues
pub mod Clipboard
