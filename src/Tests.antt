-- ===== src/Tests.antt =====
-- The theorems at concrete inputs.
pub mod Data
pub mod Values
pub mod Commands
pub mod Sessions
pub mod Client
pub mod Programs
pub mod Downloads
pub mod Uploads
pub mod Interleavings
pub mod Starting
pub mod Logging
pub mod Replication
