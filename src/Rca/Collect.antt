-- ===== src/Rca/Collect.antt =====
-- The collection of the anomalies around an incident (internal/rca/incident_anomaly_collector.go) and
-- the service of candidate causes (service.go), which groups and ranks them.
mod Defs
mod Relation
pub mod Limits
unfoldable pub use Defs.*
pub use Relation.*
