-- ===== src/Rca/TimeRing.antt =====
-- The rings of time around the peak of an incident (internal/rca/time_ring.go). Instants are
-- nanoseconds as integers, durations are int64 values, and the string constants of `TimeRing` are a
-- data type; `Priority` gives every string that is no constant the value of `out_of_scope`.
mod Defs
mod Assign
mod Sort
unfoldable pub use Defs.*
pub use Assign.*
pub use Sort.*
