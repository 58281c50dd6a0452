-- ===== src/Mira/Session.antt =====
-- The sessions of the assistant (internal/mira/session/session.go).
mod Defs
mod Laws
unfoldable pub use Defs.*
pub use Laws.*
