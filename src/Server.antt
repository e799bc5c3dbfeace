-- ===== src/Server.antt =====
-- The routes of crates/omnivore-server.
pub mod Answer
pub mod ApiAuth
pub mod Badge
pub mod Csrf
pub mod Embed
pub mod Login
pub mod Oauth
pub mod Maintenance
pub mod Projects
pub mod Settings
pub mod RateLimit
pub mod Series
pub mod Ingest
pub mod Comment
mod Tests
