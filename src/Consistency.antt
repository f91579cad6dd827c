-- ===== src/Consistency.antt =====
-- pkg/consistency: levels, requirements and the session token.
pub mod Level
pub mod Token
mod Tests
