-- ===== src/Model.antt =====
-- crates/omnivore-core/src/model: the data of reports and snapshots.
pub mod Target
pub mod Report
pub mod Source
pub mod Plausible
pub mod Snapshot
mod Tests
