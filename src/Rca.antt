-- ===== src/Rca.antt =====
-- The root cause analysis engine (internal/rca).
pub mod TimeRing
pub mod Events
pub mod ServiceGraph
pub mod Dimensions
pub mod Grouping
pub mod Chain
mod Detector
pub mod Scoring
mod Labels
pub mod Collect
pub mod Engine
mod Samples
mod Tests
