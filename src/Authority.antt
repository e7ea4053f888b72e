-- ===== src/Authority.antt =====
-- src/authority.rs: identities, the authority records and their on-disk form.
pub mod Identity
pub mod Hex
pub mod TxnName
pub mod Record
pub mod Paths
pub mod Scan
