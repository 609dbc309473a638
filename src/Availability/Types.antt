-- ===== src/Availability/Types.antt =====
-- availability/availability-contracts/types/types.go: the objects that the packages share.
-- Identifiers are Go strings (`Bytes`). A `time.Time` is a number of nanoseconds since the zero
-- time; a `time.Duration` and an `int64` are signed. An `int` that may be negative in the source
-- (a chunk count or index given from outside) is signed too. A `uint64` is a number below 2 ^ 64.
use cipher.Prelude.{ℕ, ◌==◌, Bool, ◌||◌, List, Bytes}
use cipher.Prelude.Int.{ℤ}

-- `other` stands for every string that is none of the nine constants.
pub data ContractState : Type 0 where
  proposed agreed transferring ready active completed expired terminated disputed : ContractState
  other : ContractState

abbrev rank : ContractState → ℕ
rank proposed = 0
rank agreed = 1
rank transferring = 2
rank ready = 3
rank active = 4
rank completed = 5
rank expired = 6
rank terminated = 7
rank disputed = 8
rank other = 9

-- `s == t`, where one of the two is a constant.
abbrev pub state_eq : ContractState → ContractState → Bool
state_eq s t = rank s == rank t

-- ContractState.IsTerminal
unfoldable pub is_terminal : ContractState → Bool
is_terminal s =
    state_eq s completed || state_eq s expired || state_eq s terminated || state_eq s disputed

-- `other` is a string that is neither constant.
pub data AvailabilityStatus : Type 0 where
  pass fail : AvailabilityStatus
  other : Bytes → AvailabilityStatus

pub data EpochStatus : Type 0 where
  active ended : EpochStatus

pub record Epoch : Type 0 where
  pub id : Bytes
  pub provider_id : Bytes
  pub file_id : Bytes
  pub total_chunks : ℕ
  pub challenge_counter : ℕ
  pub uncovered : List ℕ
  pub status : EpochStatus
  pub round_number : ℕ
  pub created_at : ℕ

pub record EpochState : Type 0 where
  pub epoch_id : Bytes
  pub challenge_counter : ℕ
  pub uncovered_chunk_count : ℕ
  pub epoch_status : EpochStatus
  pub round_number : ℕ

pub record Challenge : Type 0 where
  pub challenge_id : Bytes
  pub contract_id : Bytes
  pub provider_id : Bytes
  pub file_id : Bytes
  pub epoch_id : Bytes
  pub chunk_id : ℤ
  pub nonce : Bytes
  pub challenge_counter : ℕ
  pub round_number : ℕ
  pub trigger_status : Bool
  pub created_at : ℕ

pub record ChallengeResult : Type 0 where
  pub challenge_id : Bytes
  pub succeeded : Bool
  pub recorded_at : ℕ

pub record AvailabilityResult : Type 0 where
  pub contract_id : Bytes
  pub provider_id : Bytes
  pub period : ℕ
  pub challenge_id : Bytes
  pub result : AvailabilityStatus
  pub timestamp : ℕ

-- `unset` is the empty string of a zero value.
pub data SettlementStatus : Type 0 where
  unset pending completed withheld expired terminated : SettlementStatus

pub record SettlementState : Type 0 where
  pub status : SettlementStatus
  pub released_amount : ℤ
  pub withheld_amount : ℤ
  pub successful_proofs : ℕ
  pub failed_proofs : ℕ
  pub finalized_at : ℕ

pub record AvailabilityContract : Type 0 where
  pub id : Bytes
  pub publisher_id : Bytes
  pub provider_id : Bytes
  pub file_id : Bytes
  pub total_chunks : ℤ
  pub payment_amount : ℤ
  pub funded_amount : ℤ
  pub duration : ℤ
  pub created_at : ℕ
  pub ends_at : ℕ
  pub state : ContractState
  pub challenges : List Bytes
  pub results : List ChallengeResult
  pub availability_results : List AvailabilityResult
  pub settlement : SettlementState
