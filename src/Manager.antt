-- ===== src/Manager.antt =====
-- The name server (nm/).
pub mod Entry
pub mod Access
pub mod Files
pub mod Servers
pub mod Cache
pub mod State
pub mod Requests
pub mod Replicas
pub mod Tickets
pub mod Create
pub mod Delete
pub mod Replication
