-- ===== src/Sync.antt =====
-- The background copy of KPIs from MariaDB to Weaviate (internal/sync).
mod Defs
mod Fields
mod Store
mod Laws
mod Complete
mod Loop
mod Counting
mod Supervision
mod Draining
mod Tests
