-- ===== src/Examples.antt =====
-- Concrete inputs for the theorems of the library.
pub mod StandIns
pub mod Frames
pub mod Ledger
pub mod Payouts
pub mod Audit
pub mod Replicas
pub mod Vouchers
pub mod Uploads
pub mod Requests
