-- ===== src/Rca/Events.antt =====
-- Events of anomalies: the types and constructors (internal/rca/anomaly_event.go and
-- enriched_anomaly_event.go), and the mapping of telemetry to events and their filter
-- (anomaly_event_mapper.go).
mod Defs
mod Build
mod Mapper
mod Filter
mod Laws
mod Tests
unfoldable pub use Defs.*
