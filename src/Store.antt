-- ===== src/Store.antt =====
-- The event store on Raft (src/infra/es/store/RaftCommandEventStore.cpp, src/infra/raft/RaftLogStore.cpp).
pub mod Defs
pub mod Transitions
pub mod Persist
pub mod Reader
mod Tests
mod ReaderTests
