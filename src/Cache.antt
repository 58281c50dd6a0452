-- ===== src/Cache.antt =====
-- The cache in memory (pkg/cache/valkey_noop.go) and the feature flags kept in a cache
-- (internal/services/runtime_feature_flags.go).
mod Noop
mod NoopLaws
mod Flags
mod Tests
