-- ===== src/Availability.antt =====
-- availability/availability-contracts: contracts, epochs, challenges, proofs and settlement.
pub mod Types
pub mod Lifecycle
pub mod Settlement
pub mod Epoch
pub mod Challenge
pub mod Verification
pub mod Merkle
pub mod Contract
