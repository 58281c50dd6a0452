-- ===== src/Rca/Grouping.antt =====
-- Groups of anomalies (internal/rca/candidates.go) and the partition of events into them
-- (internal/rca/grouping.go).
mod Group
mod Defs
mod Bounds
mod Partition
mod Tests
unfoldable pub use Group.*
unfoldable pub use Defs.*
