-- ===== src/Availability/Epoch.antt =====
-- availability/availability-contracts/challenge/epoch.go: the epoch store. An operation takes the
-- store and returns it with its result; the random bytes (`none` if `rand.Read` fails) and the
-- clock are arguments. The store's mutex makes every operation one step.
pub mod Coverage
pub mod Store
pub mod Fresh
pub mod History
use cipher.Prelude.{
  ℕ, zero, suc, ◌+◌, ◌*◌, ◌%◌, ◌^◌, ◌==◌, Bool, true, false, not, ◌||◌, Option, none, some, List,
  [], ◌∷◌, ◌++◌, Bytes, bytes, is_empty, length, get_or, take, drop, lookup, insert, Result, ok,
  err, if◌then◌else◌,
}
use cipher.Prelude.Int.{ℤ, pos, negsuc, is_positive, pos_part}
use cipher.Prelude.Encoding.{hex_encode, be_value}
use cipher.Availability.Types.{Epoch, EpochState, EpochStatus, active, ended}

pub data EpochError : Type 0 where
  missing_ids non_positive_total no_entropy missing_arguments : EpochError
  unknown_epoch not_active no_uncovered no_prior_epoch latest_unavailable missing_epoch_id :
      EpochError

pub record EpochStore : Type 0 where
  pub epochs : List (Bytes × Epoch)
  pub latest : List (Bytes × Bytes)

abbrev pub is_active : EpochStatus → Bool
is_active active = true
is_active ended = false

-- `uncovered[index] = index`, from `i` on.
unfoldable pub indices : ℕ → ℕ → List ℕ
indices i zero = []
indices i (suc n) = i ∷ indices (i + 1) n

-- providerID + "\x00" + fileID
abbrev pub store_key : Bytes → Bytes → Bytes
store_key provider_id file_id = provider_id ++ (0 ∷ file_id)

-- The previous epoch of the provider and file, where the store still has it.
previous_epoch : Bytes → EpochStore → Option (Bytes × Epoch)
previous_epoch key s = elim (lookup key s.latest) [
  | none ↦ none
  | some id ↦ elim (lookup id s.epochs) [ none ↦ none | some e ↦ some (id, e) ]
]

-- `previous.Status = EpochEnded`, through the pointer that the map holds.
end_previous : Option (Bytes × Epoch) → List (Bytes × Epoch) → List (Bytes × Epoch)
end_previous none m = m
end_previous (some (id, e)) m = insert id (record e { status = ended }) m

next_round : Option (Bytes × Epoch) → ℕ
next_round none = 0
next_round (some (id, e)) = (e.round_number + 1) % 2 ^ 64

-- The locked part of CreateEpoch.
unfoldable pub add_epoch : Bytes → Bytes → ℕ → Bytes → ℕ → EpochStore → EpochStore
unfolding previous_epoch end_previous next_round
add_epoch provider_id file_id total epoch_id now s =
    let key = store_key provider_id file_id in
    let previous = previous_epoch key s in
    record {
      epochs =
          insert epoch_id
            (record {
              id = epoch_id;
              provider_id = provider_id;
              file_id = file_id;
              total_chunks = total;
              challenge_counter = 0;
              uncovered = indices 0 total;
              status = active;
              round_number = next_round previous;
              created_at = now;
            })
            (end_previous previous s.epochs);
      latest = insert key epoch_id s.latest;
    }

-- CreateEpoch
unfoldable pub create_epoch :
    Option Bytes → ℕ → Bytes → Bytes → ℤ → EpochStore → EpochStore × Result EpochError Bytes
unfolding add_epoch
create_epoch random_id now provider_id file_id total_chunks s =
    if is_empty provider_id || is_empty file_id
    then (s, err missing_ids)
    else if not (is_positive total_chunks)
    then (s, err non_positive_total)
    else elim random_id [
      | none ↦ (s, err no_entropy)
      | some r ↦
          let epoch_id = bytes "epoch-" ++ hex_encode r in
          (add_epoch provider_id file_id (pos_part total_chunks) epoch_id now s, ok epoch_id)
    ]

-- append(u[:i], u[i+1:]...)
abbrev pub remove_at : List ℕ → ℕ → List ℕ
remove_at u i = take i u ++ drop (suc i) u

-- The choice itself: `index` is the hash modulo the number of uncovered chunks.
unfoldable pub select_from : Epoch → Bytes → Epoch × ℕ
select_from e chunk_hash =
    let index = be_value chunk_hash % length e.uncovered in
    (
      record e {
        uncovered = remove_at e.uncovered index;
        challenge_counter = (e.challenge_counter + 1) % 2 ^ 64;
      },
      get_or e.uncovered index 0,
    )

-- SelectUncoveredChunk
unfoldable pub select_uncovered_chunk :
    Bytes → Bytes → EpochStore → EpochStore × Result EpochError ℕ
select_uncovered_chunk epoch_id chunk_hash s =
    if is_empty epoch_id || is_empty chunk_hash
    then (s, err missing_arguments)
    else elim (lookup epoch_id s.epochs) [
      | none ↦ (s, err unknown_epoch)
      | some e ↦
          if not (is_active e.status)
          then (s, err not_active)
          else if is_empty e.uncovered
          then (s, err no_uncovered)
          else let (e', chunk_id) = select_from e chunk_hash in
            (record s { epochs = insert epoch_id e' s.epochs }, ok chunk_id)
    ]

-- CheckRoundTrigger
unfoldable pub check_round_trigger : Bytes → Bool
check_round_trigger [] = false
check_round_trigger (b ∷ bs) = be_value (b ∷ bs) % 3 == 0

-- StartNextEpoch. The read lock is released before CreateEpoch; no other operation removes an
-- epoch or changes its total.
unfoldable pub start_next_epoch :
    Option Bytes → ℕ → Bytes → Bytes → EpochStore → EpochStore × Result EpochError Bytes
unfolding create_epoch
start_next_epoch random_id now provider_id file_id s =
    if is_empty provider_id || is_empty file_id
    then (s, err missing_ids)
    else elim (lookup (store_key provider_id file_id) s.latest) [
      | none ↦ (s, err no_prior_epoch)
      | some previous_id ↦ elim (lookup previous_id s.epochs) [
        | none ↦ (s, err latest_unavailable)
        | some e ↦ create_epoch random_id now provider_id file_id (pos e.total_chunks) s
      ]
    ]

-- GetEpochState
unfoldable pub get_epoch_state : Bytes → EpochStore → Result EpochError EpochState
get_epoch_state epoch_id s =
    if is_empty epoch_id then err missing_epoch_id else elim (lookup epoch_id s.epochs) [
      | none ↦ err unknown_epoch
      | some e ↦ ok (record {
        epoch_id = e.id;
        challenge_counter = e.challenge_counter;
        uncovered_chunk_count = length e.uncovered;
        epoch_status = e.status;
        round_number = e.round_number;
      })
    ]
