-- ===== src/Uql.antt =====
-- The unified query language: its syntax and validation (internal/models/unified_query_language.go),
-- its optimizer and plans (internal/services/uql_optimizer.go) and its translation to the languages
-- of the engines (internal/services/uql_translator.go).
pub mod Syntax
mod Outcome
mod Text
mod Validate
pub mod Optimizer
mod Plan
mod Translate
mod Parse
mod Pipeline
mod Tests
mod ParseTests
