-- ===== src/Rca/Dimensions.antt =====
-- The configuration of dimensions and its diagnostics (internal/rca/dimension_config.go and
-- config_merge.go).
pub mod Floats
mod Diagnostics
mod Defs
mod Laws
mod Kpis
mod Tests
unfoldable pub use Diagnostics.*
unfoldable pub use Defs.*
