-- ===== src/Rca/Engine.antt =====
-- The engine (internal/rca/engine.go): the chain of a candidate, the analysis of an incident, and the
-- analysis of a window of time.
pub mod Chains
pub mod Compute
mod Correlation
mod Window
mod ChainLaws
mod Paths
mod Reports
mod Analysis
mod Errors
mod WindowLaws
mod Tests
