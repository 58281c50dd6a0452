-- ===== src/Rca/Chain.antt =====
-- Incidents and the chains of steps that explain them: the context of an incident
-- (internal/rca/incident_context.go), steps, chains and incidents (models.go).
mod Context
mod Defs
mod Laws
unfoldable pub use Context.*
unfoldable pub use Defs.*
pub use Laws.*
