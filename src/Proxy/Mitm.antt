-- ===== src/Proxy/Mitm.antt =====
-- The interception of one HTTPS tunnel (src/proxy/MitmSession.{hpp,cpp}): its definitions, and what
-- they satisfy.
pub mod State
pub mod Handlers
pub mod Closing
pub mod Handshake
pub mod Editing
mod Tests
