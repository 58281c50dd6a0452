-- ===== src/Kpi/Validation.antt =====
-- `ValidateKPIDefinition` (internal/services/kpi_validation.go).
mod Defs
mod Rules
mod Laws
unfoldable pub use Defs.*
pub use Laws.*
