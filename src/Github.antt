-- ===== src/Github.antt =====
-- crates/omnivore-core/src/github: requests to GitHub.
pub mod Source
pub mod Tree
pub mod Comment
mod Tests
