-- ===== src/Session.antt =====
-- src/session.rs: sessions, their records and the operations on them.
pub mod Journal
pub mod Names
pub mod Types
pub mod Validate
pub mod Host
pub mod Git
pub mod Commands
pub mod Store
pub mod Preimages
pub mod Records
pub mod Lifecycle
pub mod Files
pub mod Create
pub mod Publish
pub mod Discard
