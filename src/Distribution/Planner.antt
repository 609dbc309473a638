-- ===== src/Distribution/Planner.antt =====
-- network/distribution/planner.go. A peer.ID and a ChunkID are byte strings; of a manifest the
-- content id and the chunk ids are kept, which are all that the planner reads.
use cipher.Prelude.{
  ℕ, zero, suc, ◌+◌, ◌%◌, ltb, not, Option, none, some, List, [], ◌∷◌, ◌++◌, Bytes, length, get_or,
  is_empty, lookup, insert, Result, ok, err, if◌then◌else◌,
}
use cipher.Prelude.Int.{ℤ, is_positive, pos_part}

pub data PlacementError : Type 0 where
  no_providers non_positive_replication too_much_replication no_chunks : PlacementError

pub record Manifest : Type 0 where
  pub content_id : Bytes
  pub chunk_ids : List Bytes

pub record PlacementPlan : Type 0 where
  pub content_id : Bytes
  pub manifest : Manifest
  pub assignments : List (Bytes × List Bytes)
  pub provider_chunks : List (Bytes × List Bytes)
  pub replication : ℕ

abbrev pub or_none : Option (List Bytes) → List Bytes
or_none none = []
or_none (some xs) = xs

-- `m[k] = append(m[k], v)`
unfoldable pub push : Bytes → Bytes → List (Bytes × List Bytes) → List (Bytes × List Bytes)
push k v m = insert k (or_none (lookup k m) ++ (v ∷ [])) m

-- The loop over the providers that makes their lists.
unfoldable pub empty_lists : List Bytes → List (Bytes × List Bytes) → List (Bytes × List Bytes)
empty_lists [] m = m
empty_lists (p ∷ ps) m = empty_lists ps (insert p [] m)

-- One round of the inner loop.
unfoldable pub assign : Bytes → Bytes → PlacementPlan → PlacementPlan
assign chunk_id p plan = record plan {
  assignments = push chunk_id p plan.assignments;
  provider_chunks = push p chunk_id plan.provider_chunks;
}

-- The inner loop from `r` on, with `left` rounds to go.
unfoldable pub place_replicas : List Bytes → ℕ → Bytes → ℕ → ℕ → PlacementPlan → PlacementPlan
place_replicas providers i chunk_id zero r plan = plan
place_replicas providers i chunk_id (suc left) r plan =
    place_replicas providers i chunk_id left (r + 1)
      (assign chunk_id (get_or providers ((i + r) % length providers) []) plan)

-- The loop over the chunks from index `i` on.
unfoldable pub place_chunks : List Bytes → ℕ → ℕ → List Bytes → PlacementPlan → PlacementPlan
place_chunks providers replication i [] plan = plan
place_chunks providers replication i (c ∷ cs) plan = place_chunks providers replication (i + 1) cs (
    place_replicas providers i c replication 0
      (record plan { assignments = insert c [] plan.assignments }))

-- PlanPlacement
unfoldable pub plan_placement : Manifest → List Bytes → ℤ → Result PlacementError PlacementPlan
plan_placement m providers replication =
    if is_empty providers
    then err no_providers
    else if not (is_positive replication)
    then err non_positive_replication
    else if ltb (length providers) (pos_part replication)
    then err too_much_replication
    else if is_empty m.chunk_ids
    then err no_chunks
    else ok (
        place_chunks providers (pos_part replication) 0 m.chunk_ids (record {
          content_id = m.content_id;
          manifest = m;
          assignments = [];
          provider_chunks = empty_lists providers [];
          replication = pos_part replication;
        }))
