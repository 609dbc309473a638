-- ===== src/Demand.antt =====
-- availability/proof-of-request: the demand for a file and its replicas.
pub mod Requests
pub mod Sums
pub mod Pending
pub mod Histories
pub mod Effects
pub mod Races
pub mod Work
pub mod Announcements
pub mod Replicas
