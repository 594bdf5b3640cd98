-- ===== src/Raft/Disk.antt =====
-- The log on disk, which `initStorage` chooses when `storage.type` is `file`:
-- storage/Segment.cpp and SegmentLog.cpp, with the digests of util/CryptoUtil.cpp.
pub mod Memory
pub mod Crypto
pub mod Segment
pub mod Sealing
pub mod Keys
pub mod Holds
pub mod Copying
pub mod Writing
pub mod Cutting
pub mod Batch
pub mod Files
pub mod SegmentLog
pub mod Chain
pub mod Represents
pub mod Reads
pub mod Rolling
pub mod Appends
pub mod Cuts
pub mod Drops
pub mod DropsMemory
pub mod Recovery
pub mod Listing
pub mod Restart
pub mod TwoActive
pub mod Runs
mod Tests
