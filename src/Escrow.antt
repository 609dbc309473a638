-- ===== src/Escrow.antt =====
-- availability/escrow-payment: payments for availability results, off the chain.
pub mod Bindings
pub mod Payment
pub mod Coordinator
pub mod FailRecord
pub mod Schedule
pub mod Dispatcher
pub mod Outcomes
pub mod History
pub mod Tally
pub mod Streak
pub mod Recent
pub mod Ledger
pub mod Promises
pub mod Reached
pub mod Repeats
pub mod Evidence
pub mod Vouchers
pub mod Forward
pub mod Redeeming
pub mod Settling
pub mod Encoded
