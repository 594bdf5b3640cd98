-- ===== src/Raft/Core.antt =====
-- RaftCore (src/infra/raft/v2/RaftCore.h and RaftCore.cpp), one handler to a definition. The child
-- modules State to Main define; the others prove.
pub mod State
pub mod Replicate
pub mod Vote
pub mod Client
pub mod Lead
pub mod Main
