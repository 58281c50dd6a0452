-- ===== src/Uql/Parse.antt =====
-- The parser of queries, `UQLParser` (internal/models/unified_query_language.go).
pub mod Texts
pub mod Clauses
pub mod Conditions
pub mod Select
pub mod Correlations
pub mod Queries
pub mod Parts
pub mod Laws
pub mod Fuel
