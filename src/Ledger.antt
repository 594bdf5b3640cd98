-- ===== src/Ledger.antt =====
-- The ledger application (src/app_ledger): its domain values and its event-sourced state machine.
pub mod Domain
pub mod Machine
pub mod Loop
mod Tests
pub mod Codec
