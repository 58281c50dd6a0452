-- ===== src/Uql/Optimizer.antt =====
-- `UQLOptimizerImpl` (internal/services/uql_optimizer.go).
pub mod Copy
pub mod Windows
pub mod Fields
pub mod Passes
pub mod Refines
pub mod Rewrites
pub mod Keeping
