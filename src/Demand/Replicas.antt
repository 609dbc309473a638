-- ===== src/Demand/Replicas.antt =====
-- availability/proof-of-request: replica/tracker.go and demandMetadata/metadata.go; and
-- IngestAnnouncement and GetReplicaCount of integration/availability/demand_bridge.go.
use cipher.Prelude.{
  ℕ, suc, ◌≤◌, ◌==◌, ◌≡◌, refl, Bool, true, false, not, ◌&&◌, Bool-cases, inl, inr, List, [], ◌∷◌,
  Bytes, bytes_eq, is_empty, arith, ltb, Result, ok, err, if◌then◌else◌,
}
use cipher.Prelude.Int.{ℤ, pos, negsuc, eq_ℤ}
use cipher.Demand.Announcements.{SignedCacheAnnouncement, zero_time, verify_cache_announcement}

pub data ProviderState : Type 0 where
  active removed : ProviderState

abbrev pub is_kept : ProviderState → Bool
is_kept active = true
is_kept removed = false

pub record Replica : Type 0 where
  pub replica_id : Bytes
  pub provider_id : Bytes
  pub file_id : Bytes
  pub version : ℕ
  pub state : ProviderState

pub data ReplicaError : Type 0 where
  no_provider_id no_file_id bad_signature expired_announcement : ReplicaError

-- The replica of a provider, a file and a version.
abbrev pub is_replica : Bytes → Bytes → ℕ → Replica → Bool
is_replica provider_id file_id version r =
    bytes_eq r.provider_id provider_id && (bytes_eq r.file_id file_id && r.version == version)

-- The loop of AddOrUpdateReplica and the append behind it.
unfoldable pub put_replica : Replica → List Replica → List Replica
put_replica replica [] = replica ∷ []
put_replica replica (r ∷ rs) =
    let rest = put_replica replica rs in
    if is_replica replica.provider_id replica.file_id replica.version r
    then record r { state = replica.state } ∷ rs
    else r ∷ rest

unfoldable pub add_or_update_replica :
    Replica → List Replica → List Replica × Result ReplicaError (Unit {0})
add_or_update_replica replica t =
    if is_empty replica.provider_id
    then (t, err no_provider_id)
    else if is_empty replica.file_id
    then (t, err no_file_id)
    else (put_replica replica t, ok tt)

-- The loop of GetReplicaCount.
unfoldable pub count_replicas : Bytes → ℕ → List Replica → ℕ
count_replicas file_id version [] = 0
count_replicas file_id version (r ∷ rs) =
    let n = count_replicas file_id version rs in
    if bytes_eq r.file_id file_id && (r.version == version && is_kept r.state) then suc n else n

unfoldable pub get_replica_count : Bytes → ℕ → List Replica → Result ReplicaError ℕ
get_replica_count file_id version t =
    if is_empty file_id then err no_file_id else ok (count_replicas file_id version t)

-- RemoveReplica: the list, and whether there was an active replica.
unfoldable pub remove_replica : Bytes → Bytes → ℕ → List Replica → List Replica × Bool
remove_replica provider_id file_id version [] = ([], false)
remove_replica provider_id file_id version (r ∷ rs) =
    let (rest, found) = remove_replica provider_id file_id version rs in
    if is_replica provider_id file_id version r && is_kept r.state
    then (record r { state = removed } ∷ rs, true)
    else (r ∷ rest, found)

-- a.After(b)
abbrev pub after : ℤ → ℤ → Bool
after (pos a) (pos b) = ltb b a
after (pos a) (negsuc b) = true
after (negsuc a) (pos b) = false
after (negsuc a) (negsuc b) = ltb a b

-- IngestAnnouncement
unfoldable pub ingest_announcement :
    (Bytes → Bytes → Bytes → Bool)
    → ℤ
    → SignedCacheAnnouncement
    → Bytes
    → List Replica
    → List Replica × Result ReplicaError (Unit {0})
ingest_announcement ed25519_verify now signed public_key t =
    let a = signed.announcement in
    if not (verify_cache_announcement ed25519_verify public_key signed)
    then (t, err bad_signature)
    else if after now a.expiry
    then (t, err expired_announcement)
    else add_or_update_replica
        (record {
          replica_id = [];
          provider_id = a.provider_id;
          file_id = a.file_id;
          version = a.version;
          state = active;
        })
        t

pub record DemandMetadata : Type 0 where
  pub file_id : Bytes
  pub demand : ℤ
  pub replica_count : ℤ
  pub timestamp : ℤ
  pub version : ℕ

pub data MetadataError : Type 0 where
  no_file negative_demand negative_replica_count zero_timestamp : MetadataError

abbrev pub is_negative : ℤ → Bool
is_negative (pos n) = false
is_negative (negsuc n) = true

-- CreateDemandMetadata
unfoldable pub create_demand_metadata : Bytes → ℤ → ℤ → ℤ → ℕ → Result MetadataError DemandMetadata
create_demand_metadata file_id demand replica_count timestamp version =
    if is_empty file_id
    then err no_file
    else if is_negative demand
    then err negative_demand
    else if is_negative replica_count
    then err negative_replica_count
    else if eq_ℤ timestamp zero_time
    then err zero_timestamp
    else ok (record {
      file_id = file_id;
      demand = demand;
      replica_count = replica_count;
      timestamp = timestamp;
      version = version;
    })

-- The replicas of a provider, a file and a version, active or removed.
unfoldable pub held_by : Bytes → Bytes → ℕ → List Replica → ℕ
held_by provider_id file_id version [] = 0
held_by provider_id file_id version (r ∷ rs) =
    let n = held_by provider_id file_id version rs in
    if is_replica provider_id file_id version r then suc n else n

put_replica-other :
    (r : Replica) (p f : Bytes) (v : ℕ) (t : List Replica)
    → is_replica p f v r ≡ false
    → held_by p f v (put_replica r t) ≡ held_by p f v t
unfolding held_by put_replica
put_replica-other r p f v [] h = ground (arith, h)
put_replica-other r p f v (x ∷ t) h =
    elim (Bool-cases (is_replica r.provider_id r.file_id r.version x)) [
      | inl e ↦ rw (e, put_replica) refl
      | inr e ↦ rw (e, put_replica) (ground (arith, put_replica-other r p f v t h))
    ]

put_replica-same :
    (r : Replica) (t : List Replica)
    → held_by r.provider_id r.file_id r.version t ≤ 1
    → held_by r.provider_id r.file_id r.version (put_replica r t) ≤ 1
unfolding held_by put_replica
put_replica-same r [] h = ground arith
put_replica-same r (x ∷ t) h = elim (Bool-cases (is_replica r.provider_id r.file_id r.version x)) [
  | inl e ↦ rw (e, put_replica) h
  | inr e ↦ rw (e, put_replica) (ground (arith, e, put_replica-same r t (ground (arith, h, e))))
]
