-- ===== src/Tests.antt =====
-- Small runs of the program's operations and instances of their properties.
mod Creating
mod Fixture
mod Publishing
mod Sessions
mod Removing
mod Templates
mod Outputs
mod Authorities
mod Collecting
mod Container
mod Maintaining
mod Censuses
mod Printing
mod Listings
mod Discarding
mod Scanning
