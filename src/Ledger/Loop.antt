-- ===== src/Ledger/Loop.antt =====
-- The command process loop of the ledger
-- (src/app_ledger/should_be_generated/domain/CommandProcessLoop.hpp) and what its store keeps.
pub mod Defs
pub mod Replay
pub mod Runs
