-- ===== src/Pages.antt =====
-- The pages of crates/omnivore-server/src/routes/pages.
pub mod Escape
mod Tests
pub mod Target
pub mod Composite
pub mod ProjectDetail
pub mod FileTree
pub mod FileCoverage
pub mod SourceFragment
