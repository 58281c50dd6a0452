-- ===== src/Uql/Plan.antt =====
-- `GenerateQueryPlan` (internal/services/uql_optimizer.go).
pub mod Defs
pub mod Build
pub mod Generate
pub mod Flow
pub mod Laws
pub mod Validity
pub mod Estimates
