-- ===== src/Store.antt =====
-- backend/internal/repository: the stores.
pub mod Memory
pub mod Spec
pub mod Sql
pub mod Postgres
