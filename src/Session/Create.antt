-- ===== src/Session/Create.antt =====
-- src/session.rs: `create`: the Git commands that build a session, its transaction and its stages.
pub mod Outputs
pub mod Commands
pub mod Transaction
pub mod Materialize
pub mod Keeps
pub mod Changes
pub mod Advance
pub mod Stages
