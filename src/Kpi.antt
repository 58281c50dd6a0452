-- ===== src/Kpi.antt =====
-- Definitions of key performance indicators: their validation and identifiers
-- (internal/services/kpi_validation.go, kpi_id.go).
pub mod Text
pub mod Definition
pub mod Uuid
pub mod Validation
pub mod Identity
pub mod Sample
mod Tests
