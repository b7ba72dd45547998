-- ===== src/Storage.antt =====
-- The storage server (ss/).
pub mod Text
pub mod Disk
pub mod Session
pub mod Commit
pub mod Locks
pub mod Tickets
pub mod State
pub mod Server
pub mod History
pub mod Write
