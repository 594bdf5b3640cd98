-- ===== src/Ledger/Machine.antt =====
-- The ledger's state machine (src/app_ledger/AppStateMachine.cpp, src/app_ledger/v2/
-- AppStateMachine.cpp), memory-backed: the callbacks do nothing there. Commands are processed into
-- a hint and events without changing the state; events are applied to it.
pub mod Defs
pub mod Trial
pub mod Accept
pub mod Frame
pub mod Total
pub mod Conserve
pub mod Ranges
pub mod Cover
