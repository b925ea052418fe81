-- ===== src/Store.antt =====
-- The store: internal/store, shared by SQLite and Postgres.
pub mod Sql
pub mod Time
pub mod Acks
pub mod ApiKeys
pub mod Tags
pub mod Listing
pub mod Audit
pub mod Alerts
