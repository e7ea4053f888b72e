-- ===== src/Session/Discard.antt =====
-- src/session.rs: `ensure_discard_safe`, which lets a session go only if all that it holds is what it
-- was made with.
pub mod Outputs
pub mod Checks
pub mod Disposable
pub mod SafeName
