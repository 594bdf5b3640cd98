-- ===== src/Raft/Log.antt =====
-- The log of a replica: raft.proto's LogEntry and storage/InMemoryLog.h, the implementation of
-- storage/Log.h that `initStorage` chooses when `storage.type` is not `file`.
pub mod Defs
pub mod View
pub mod Append
pub mod Truncate
pub mod Batch
