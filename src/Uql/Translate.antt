-- ===== src/Uql/Translate.antt =====
-- The translation of queries to the languages of the engines (internal/services/uql_translator.go).
pub mod Defs
pub mod Filters
pub mod Engines
pub mod Laws
pub mod FilterLaws
