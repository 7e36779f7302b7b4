-- ===== src/Tests.antt =====
-- The theorems at work on concrete inputs.
pub mod Platform
pub mod Protocol
pub mod Pools
pub mod Files
pub mod Requests
pub mod Disk
pub mod Uploads
pub mod Downloads
pub mod Watching
pub mod Lifecycle
pub mod Served
pub mod Transfers
pub mod Rounds
