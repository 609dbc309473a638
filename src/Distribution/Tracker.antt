-- ===== src/Distribution/Tracker.antt =====
-- network/distribution/tracker.go. A peer.ID is a string and a ChunkID 32 bytes; a map from
-- either is an association list. The tracker's mutex makes every method one step.
use cipher.Prelude.{
  ℕ, suc, leb, Bool, true, false, not, Option, none, some, List, [], ◌∷◌, Bytes, length, lookup,
  insert, if◌then◌else◌,
}
use cipher.Prelude.Int.{ℤ, pos, negsuc}

pub data ReplicaState : Type 0 where
  pending uploading committed failed : ReplicaState

pub record GlobalReplicaTracker : Type 0 where
  pub state : List (Bytes × List (Bytes × ReplicaState))
  pub required_r : ℤ

-- NewGlobalReplicaTracker
unfoldable pub new_global_replica_tracker : ℤ → GlobalReplicaTracker
new_global_replica_tracker required_r = record { state = []; required_r = required_r }

abbrev pub or_empty : Option (List (Bytes × ReplicaState)) → List (Bytes × ReplicaState)
or_empty none = []
or_empty (some m) = m

-- `t.state[chunkID]`; a missing chunk has the nil map, which is empty.
unfoldable pub replicas : Bytes → GlobalReplicaTracker → List (Bytes × ReplicaState)
replicas chunk_id t = or_empty (lookup chunk_id t.state)

-- SetStatus
unfoldable pub set_status :
    Bytes → Bytes → ReplicaState → GlobalReplicaTracker → GlobalReplicaTracker
set_status chunk_id p status t = record t {
  state = insert chunk_id (insert p status (replicas chunk_id t)) t.state;
}

abbrev pub is_committed : ReplicaState → Bool
is_committed committed = true
is_committed _ = false

-- The loop over the statuses of one chunk.
unfoldable pub count_committed : List (Bytes × ReplicaState) → ℕ
count_committed [] = 0
count_committed ((p, status) ∷ rest) =
    let count = count_committed rest in if is_committed status then suc count else count

-- CommittedCount
unfoldable pub committed_count : Bytes → GlobalReplicaTracker → ℕ
committed_count chunk_id t = count_committed (replicas chunk_id t)

-- `count >= t.requiredR`
unfoldable pub reaches : ℕ → ℤ → Bool
reaches count (pos r) = leb r count
reaches count (negsuc n) = true

-- IsChunkSatisfied
unfoldable pub is_chunk_satisfied : Bytes → GlobalReplicaTracker → Bool
is_chunk_satisfied chunk_id t = reaches (committed_count chunk_id t) t.required_r

-- IsComplete, which counts anew for each chunk.
unfoldable pub is_complete : List Bytes → GlobalReplicaTracker → Bool
is_complete [] t = true
is_complete (id ∷ ids) t =
    let rest = is_complete ids t in
    if not (reaches (count_committed (replicas id t)) t.required_r) then false else rest

-- The loop of GetSummary.
unfoldable pub count_satisfied : List Bytes → GlobalReplicaTracker → ℕ
count_satisfied [] t = 0
count_satisfied (id ∷ ids) t =
    let rest = count_satisfied ids t in
    if reaches (count_committed (replicas id t)) t.required_r then suc rest else rest

-- GetSummary: the satisfied chunks and all of them.
unfoldable pub get_summary : List Bytes → GlobalReplicaTracker → ℕ × ℕ
get_summary ids t = (count_satisfied ids t, length ids)
