-- ===== src/Mira.antt =====
-- The assistant (internal/mira).
pub mod Session
mod Tests
