-- ===== src/Availability/Contract.antt =====
-- availability/availability-contracts/contract: the contract store and its public operations.
-- `Store` has the state; `Funding`, `Initiate`, `Record` and `Settle` have the operations of
-- contract.go and verify_and_record.go in their order; the other children prove.
pub mod Store
pub mod Funding
pub mod Initiate
pub mod Record
pub mod Settle
pub mod Invariant
pub mod Effects
pub mod Bodies
pub mod Initiation
pub mod Steps
pub mod History
pub mod Endings
pub mod Refusals
