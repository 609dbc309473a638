-- ===== src/Examples/Replicas.antt =====
-- The theorems on network/distribution at a concrete tracker.
use cipher.Prelude.{
  length, refl, ◌+◌, ◌≡◌, ◌↔◌, true, some, [], ◌∷◌, bytes, All, bytes_eq, if◌then◌else◌, lookup,
}
use cipher.Prelude.Int.{pos}
use cipher.Distribution.Tracker.{
  GlobalReplicaTracker, committed, pending, set_status, replicas, committed_count,
}
use cipher.Distribution.Planner.{Manifest, PlacementPlan, plan_placement}
use cipher.Distribution.Placement.{peers, circle, plan_placement-circle}
use cipher.Distribution.Counts.{weight, committed_count-set_status}

abbrev tracker : GlobalReplicaTracker
tracker = record {
  state = (bytes "c", (bytes "p", committed) ∷ (bytes "q", pending) ∷ []) ∷ [];
  required_r = pos 1;
}

committed_count-set_status_example :
    committed_count (bytes "c") (set_status (bytes "c") (bytes "q") committed tracker)
      + (if bytes_eq (bytes "c") (bytes "c")
          then weight (lookup (bytes "q") (replicas (bytes "c") tracker))
          else 0)
    ≡ committed_count (bytes "c") tracker
      + (if bytes_eq (bytes "c") (bytes "c") then weight (some committed) else 0)
committed_count-set_status_example =
    committed_count-set_status (bytes "c") (bytes "c") (bytes "q") committed tracker

abbrev two_chunks : Manifest
two_chunks = record { content_id = bytes "id"; chunk_ids = bytes "c" ∷ bytes "d" ∷ [] }

abbrev plan : PlacementPlan
plan = record {
  content_id = bytes "id";
  manifest = two_chunks;
  assignments =
      (bytes "c", bytes "p" ∷ bytes "q" ∷ []) ∷ (bytes "d", bytes "q" ∷ bytes "p" ∷ []) ∷ [];
  provider_chunks =
      (bytes "p", bytes "c" ∷ bytes "d" ∷ []) ∷ (bytes "q", bytes "c" ∷ bytes "d" ∷ []) ∷ [];
  replication = 2;
}

plan_placement-circle_example :
    (peers (bytes "d") plan ≡ circle (bytes "p" ∷ bytes "q" ∷ []) 1 2 0)
    × (length (peers (bytes "d") plan) ≡ 2)
unfolding plan_placement cipher.Distribution.Planner.place_chunks
    cipher.Distribution.Planner.place_replicas cipher.Distribution.Planner.assign
    cipher.Distribution.Planner.push cipher.Prelude.insert bytes_eq
    cipher.Distribution.Planner.empty_lists lookup
plan_placement-circle_example =
    plan_placement-circle two_chunks (bytes "p" ∷ bytes "q" ∷ []) (pos 2) (bytes "c" ∷ [])
      (bytes "d") [] {plan = plan} refl refl refl
