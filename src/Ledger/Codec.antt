-- ===== src/Ledger/Codec.antt =====
-- The conversions of the ledger's values to and from messages, and of requests into commands.
pub mod Messages
pub mod Defs
pub mod RoundTrip
pub mod EntryRound
pub mod Commands
pub mod Requests
mod Samples
mod Tests
