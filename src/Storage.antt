-- ===== src/Storage.antt =====
-- crates/omnivore-core/src/storage/db.rs: the tables, and the operations of `Database` on them.
pub mod Records
pub mod Tables
pub mod Keys
pub mod Queries
pub mod Ratchet
pub mod Retention
pub mod Valid
pub mod Ingest
pub mod Caches
mod Tests
