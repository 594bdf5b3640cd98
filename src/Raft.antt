-- ===== src/Raft.antt =====
-- The Raft replica (src/infra/raft): its log and the consensus core.
pub mod Log
pub mod Disk
pub mod Core
pub mod Safety
mod Tests
mod CoreTests
