-- ===== src/Proxy/Session.antt =====
-- One client connection (src/proxy/Session.{hpp,cpp}): its definitions, and what they satisfy.
pub mod State
pub mod Route
pub mod Replies
pub mod Handlers
pub mod Completions
pub mod Extends
pub mod ExtendsHandlers
pub mod ExtendsSteps
pub mod Reports
pub mod Throws
pub mod WriteOrder
mod Tests
