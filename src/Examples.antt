-- ===== src/Examples.antt =====
-- Concrete runs of the theorems, by the part of the program.
pub mod Data
pub mod Commits
pub mod Files
pub mod Tables
pub mod Registry
pub mod Requests
pub mod Replicas
pub mod Replication
pub mod Messages
pub mod Texts
pub mod Access
