-- ===== src/Ledger/Domain.antt =====
-- The values of the ledger (src/app_ledger/should_be_generated/domain): accounts, journal entries
-- and the account types' ranges. A value keeps the version that it was decoded with.
pub mod Kind
pub mod Money
pub mod Account
pub mod Journal
