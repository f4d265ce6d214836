-- ===== src/Http.antt =====
-- HTTP messages and their parser (src/http).
pub mod Message
pub mod Raw
pub mod Parser
