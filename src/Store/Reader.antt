-- ===== src/Store/Reader.antt =====
-- ReadonlyRaftCommandEventStore: what a replica reads back of the committed entries.
pub mod Defs
pub mod Branches
pub mod Queue
pub mod Order
pub mod Runs
pub mod Ready
pub mod Marks
pub mod Ids
pub mod Caught
