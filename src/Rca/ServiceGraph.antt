-- ===== src/Rca/ServiceGraph.antt =====
-- The graph of service dependencies (internal/rca/topology.go). The map of edges is an association
-- list on pairs of names, the adjacency lists are functions from a name (a missing key reads as the
-- empty list), and the set of nodes is a list without repetitions. The statistics of an edge are a
-- type that the graph does not look into. The lock makes each method one step.
mod Defs
mod Search
mod Index
mod Added
mod Queries
pub mod ShortestPath
unfoldable pub use Defs.*
pub use Search.*
pub use Index.*
pub use Added.*
pub use Queries.*
