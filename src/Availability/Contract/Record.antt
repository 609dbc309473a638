-- ===== src/Availability/Contract/Record.antt =====
-- RecordAvailabilityResult and GetLatestAvailabilityResult of
-- availability/availability-contracts/contract/contract.go, and verify_and_record.go.
use cipher.Prelude.{
  ℕ, ◌+◌, ◌%◌, ◌^◌, Bool, true, false, not, ◌||◌, ◌&&◌, none, some, List, [], ◌∷◌, ◌++◌, Bytes,
  bytes_eq, is_empty, length, lookup, Result, ok, err, if◌then◌else◌,
}
use cipher.Prelude.Int.{ℤ}
use cipher.Availability.Types.{
  AvailabilityContract, AvailabilityResult, AvailabilityStatus, pass, fail, Challenge,
  ChallengeResult, ContractState, active, state_eq,
}
use cipher.Availability.Verification.{ChallengeResponse, build_challenge_result}
use cipher.Availability.Contract.Store.{
  ContractError, unknown_contract, not_active, foreign_challenge, mismatched_result,
  already_recorded, no_result, System, Body, with_contract,
}

-- `owner, exists := contractStore.challenges[challengeID]; exists && owner == contractID`
abbrev pub owns : Bytes → Bytes → List (Bytes × Bytes) → Bool
owns contract_id challenge_id owners = elim (lookup challenge_id owners) [
  | none ↦ false
  | some owner ↦ bytes_eq owner contract_id
]

-- The loop over `contract.Results`.
unfoldable pub is_recorded : Bytes → List ChallengeResult → Bool
is_recorded challenge_id [] = false
is_recorded challenge_id (r ∷ rs) =
    bytes_eq r.challenge_id challenge_id || is_recorded challenge_id rs

abbrev pub status_of : Bool → AvailabilityStatus
status_of true = pass
status_of false = fail

-- The two records that a result leaves in its contract.
unfoldable pub append_result :
    Bytes → Bytes → ChallengeResult → ℕ → AvailabilityContract → AvailabilityContract
append_result contract_id challenge_id result now c = record c {
  results = c.results ++ (record result { challenge_id = challenge_id; recorded_at = now } ∷ []);
  availability_results =
      c.availability_results
      ++ (record {
        contract_id = contract_id;
        provider_id = c.provider_id;
        period = (length c.availability_results + 1) % 2 ^ 64;
        challenge_id = challenge_id;
        result = status_of result.succeeded;
        timestamp = now;
      }
          ∷ []);
}

-- What RecordAvailabilityResult does to its contract, given the owners of the challenges.
unfoldable pub record_result :
    Bytes → Bytes → ChallengeResult → ℕ → List (Bytes × Bytes) → Body ContractState
unfolding append_result
record_result contract_id challenge_id result now owners c =
    if not (state_eq c.state active)
    then (c, err not_active)
    else if not (owns contract_id challenge_id owners)
    then (c, err foreign_challenge)
    else if not (is_empty result.challenge_id) && not (bytes_eq result.challenge_id challenge_id)
    then (c, err mismatched_result)
    else if is_recorded challenge_id c.results
    then (c, err already_recorded)
    else (append_result contract_id challenge_id result now c, ok c.state)

-- RecordAvailabilityResult
unfoldable pub record_availability_result :
    ℕ → Bytes → Bytes → ChallengeResult → System → System × Result ContractError ContractState
unfolding with_contract record_result
record_availability_result now contract_id challenge_id result s =
    with_contract contract_id (record_result contract_id challenge_id result now s.challenges) s

abbrev last_result : AvailabilityResult → List AvailabilityResult → AvailabilityResult
last_result r [] = r
last_result r (x ∷ xs) = last_result x xs

-- GetLatestAvailabilityResult
unfoldable pub get_latest_availability_result :
    Bytes → System → Result ContractError AvailabilityResult
get_latest_availability_result contract_id s = elim (lookup contract_id s.contracts) [
  | none ↦ err unknown_contract
  | some c ↦ elim c.availability_results [ [] ↦ err no_result | r ∷ rs ↦ ok (last_result r rs) ]
]

-- VerifyAndRecordChallengeResponse: the result is returned with an error too.
unfoldable pub verify_and_record_challenge_response :
    (Bytes → Bytes)
    → (Bytes → Bytes → Bytes → Bool)
    → ℕ
    → ℕ
    → Bytes
    → Challenge
    → ChallengeResponse
    → Bytes
    → Bytes
    → ℤ
    → System
    → System × ChallengeResult × Result ContractError ContractState
unfolding record_availability_result
verify_and_record_challenge_response sha256 ed25519_verify now now' contract_id challenge response
      root provider_key max_timeout s =
    let result =
      build_challenge_result sha256 ed25519_verify challenge response root provider_key max_timeout
        now in
    let (s', r) = record_availability_result now' contract_id challenge.challenge_id result s in
    (s', result, r)
