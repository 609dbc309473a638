-- ===== src/Availability/Contract/Store.antt =====
-- The state that availability/availability-contracts/contract/contract.go keeps, with the epoch
-- store of package challenge, which only this package calls. A contract is held by pointer: an
-- operation that changes it writes it back. The package's mutex makes every operation one step.
use cipher.Prelude.{Bool, none, some, List, Bytes, lookup, insert, Result, err}
use cipher.Availability.Types.{AvailabilityContract}
use cipher.Availability.Lifecycle.{TransitionError}
use cipher.Availability.Epoch.{EpochStore, EpochError}
use cipher.Availability.Challenge.{ChallengeError}
use cipher.Availability.Settlement.{SettlementError}

pub data ContractError : Type 0 where
  nil_resolver missing_ids non_positive_terms no_resolver : ContractError
  resolve_failed non_positive_count no_entropy : ContractError
  unknown_contract not_proposed wrong_amount : ContractError
  not_startable contract_expired : ContractError
  not_active foreign_challenge mismatched_result already_recorded : ContractError
  no_result no_results not_settleable already_terminal : ContractError
  bad_transition : TransitionError → ContractError
  epoch_state_failed : EpochError → ContractError
  challenge_failed : ChallengeError → ContractError
  settlement_failed : SettlementError → ContractError

-- activeEpoch
pub record ActiveEpoch : Type 0 where
  pub id : Bytes
  pub end_after_current : Bool

-- contractStore, chunkCountResolver and epochStore. Of the resolver only whether it is set is
-- kept; what it answers is an argument of the operation that calls it.
pub record System : Type 0 where
  pub contracts : List (Bytes × AvailabilityContract)
  pub challenges : List (Bytes × Bytes)
  pub active_epochs : List (Bytes × ActiveEpoch)
  pub has_resolver : Bool
  pub epochs : EpochStore

-- What an operation does to the contract that its pointer refers to.
abbrev pub Body : Type 0 → Type 0
Body A = AvailabilityContract → AvailabilityContract × Result ContractError A

-- `contract, ok := contractStore.contracts[contractID]`, and what follows.
unfoldable pub with_contract :
    {A : Type 0} → Bytes → Body A → System → System × Result ContractError A
with_contract contract_id body s = elim (lookup contract_id s.contracts) [
  | none ↦ (s, err unknown_contract)
  | some c ↦ let (c', r) = body c in (record s { contracts = insert contract_id c' s.contracts }, r)
]
