-- ===== src/Distribution.antt =====
-- network/distribution: where the replicas of a file's chunks are.
pub mod Tracker
pub mod Counts
pub mod Planner
pub mod Placement
