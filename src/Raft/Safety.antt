-- ===== src/Raft/Safety.antt =====
-- What the handlers of RaftCore keep, one by one and along every run of a node.
pub mod Votes
pub mod Store
pub mod Follow
pub mod Keep
pub mod Steps
pub mod Grants
pub mod Quorum
pub mod Commit
pub mod Prefix
pub mod Settle
pub mod Match
pub mod Accepted
pub mod Peers
pub mod Writes
pub mod Election
pub mod Keeps
pub mod Voting
pub mod Life
pub mod Settling
pub mod Cut
pub mod History
