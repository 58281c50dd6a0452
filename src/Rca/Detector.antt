-- ===== src/Rca/Detector.antt =====
-- The detection of an incident in a series of values of a metric (internal/rca/incident_detector.go).
mod Defs
mod Parts
mod Laws
mod Order
mod Validity
mod Tests
