-- ===== src/Rca/ServiceGraph/ShortestPath.antt =====
-- `ShortestPath` (internal/rca/topology.go): breadth-first search with a queue, the set of the names
-- visited and the map from a name to its parent.
mod Defs
mod Depths
mod Scan
mod Trace
mod Search
unfoldable pub use Defs.*
pub use Search.*
pub use Depths.{Steps, start, more}
pub use Trace.{Walk, stop, go}
