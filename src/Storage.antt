-- ===== src/Storage.antt =====
-- src/storage.rs: receipts, the file modes that the program accepts, and hard-link accounting.
pub mod Receipts
pub mod Modes
pub mod Links
