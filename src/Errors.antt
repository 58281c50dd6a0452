-- ===== src/Errors.antt =====
-- The error type of pkg/errors/errors.go.
mod Defs
mod Build
mod Laws
mod Tests
