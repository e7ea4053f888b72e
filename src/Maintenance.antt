-- ===== src/Maintenance.antt =====
-- What `doctor` and `gc` report and do.
pub mod Report
pub mod Sessions
pub mod Collect
pub mod Reachable
pub mod Output
pub mod Run
pub mod Quiet
pub mod Careful
pub mod Survey
pub mod Maintain
pub mod Order
pub mod Words
pub mod Printing
pub mod Flags
pub mod Listing
pub mod Accounted
