-- ===== src/Template.antt =====
-- src/template.rs: the records of the templates that sessions are cloned from.
pub mod Record
pub mod Transition
pub mod Store
pub mod Census
pub mod Collect
pub mod Keeps
pub mod Completing
pub mod Spares
pub mod Flags
