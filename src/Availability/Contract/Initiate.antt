-- ===== src/Availability/Contract/Initiate.antt =====
-- InitiateAvailabilityChallenge of availability/availability-contracts/contract/contract.go.
use cipher.Prelude.{
  ℕ, ◌+◌, ◌%◌, ◌^◌, leb, ltb, Bool, not, ◌||◌, ◌&&◌, Option, none, some, List, [], ◌∷◌, ◌++◌, Bytes,
  lookup, insert, Result, ok, err, if◌then◌else◌,
}
use cipher.Prelude.Int.{eq_ℤ}
use cipher.Availability.Types.{
  AvailabilityContract, Challenge, ContractState, EpochState, agreed, transferring, ready, active,
  expired, state_eq,
}
use cipher.Availability.Lifecycle.{TransitionError, transition}
use cipher.Availability.Epoch.{EpochStore, is_active, get_epoch_state}
use cipher.Availability.Challenge.{Draws, generate_next_challenge, create_challenge}
use cipher.Availability.Contract.Store.{
  ContractError, unknown_contract, not_startable, contract_expired, bad_transition,
  epoch_state_failed, challenge_failed, ActiveEpoch, System,
}

-- The loop that takes an agreed contract to active.
unfoldable pub advance : ContractState → List ContractState → Result TransitionError ContractState
advance s [] = ok s
advance s (t ∷ ts) = elim (transition s t) [ err e ↦ err e | ok next ↦ advance next ts ]

abbrev start_states : List ContractState
start_states = transferring ∷ ready ∷ active ∷ []

-- The state that an initiated challenge leaves.
unfoldable pub started_state : ContractState → Result TransitionError ContractState
unfolding advance
started_state s = if state_eq s agreed then advance s start_states else ok s

-- The first guard of InitiateAvailabilityChallenge.
unfoldable pub is_unready : AvailabilityContract → Bool
is_unready c =
    not (state_eq c.state agreed) && not (state_eq c.state active)
    || not (eq_ℤ c.funded_amount c.payment_amount)

-- Whether the tracked epoch goes on with one more challenge.
abbrev continues : EpochState → ActiveEpoch → Bool
continues e tracked =
    is_active e.epoch_status && (ltb 0 e.uncovered_chunk_count && not tracked.end_after_current)

module _ (sha256 : Bytes → Bytes) where
  -- The next challenge of the contract: in the tracked epoch, or in a new one.
  unfoldable pub next_challenge :
      Draws
      → Bytes
      → AvailabilityContract
      → Option ActiveEpoch
      → EpochStore
      → EpochStore × Result ContractError Challenge
  next_challenge d contract_id c none epochs =
      let (epochs', r) =
        create_challenge sha256 d contract_id c.provider_id c.file_id c.total_chunks 0 epochs in
      (epochs', elim r [ err e ↦ err (challenge_failed e) | ok ch ↦ ok ch ])
  next_challenge d contract_id c (some tracked) epochs = elim (get_epoch_state tracked.id epochs) [
    | err e ↦ (epochs, err (epoch_state_failed e))
    | ok e ↦
        let (epochs', r) =
          if continues e tracked
          then generate_next_challenge sha256 d contract_id c.provider_id c.file_id tracked.id
              e.challenge_counter e.round_number epochs
          else create_challenge sha256 d contract_id c.provider_id c.file_id c.total_chunks
              ((e.round_number + 1) % 2 ^ 64) epochs in
        (epochs', elim r [ err x ↦ err (challenge_failed x) | ok ch ↦ ok ch ])
  ]

  -- The bookkeeping of a generated challenge.
  unfoldable pub register_challenge :
      Bytes → AvailabilityContract → ContractState → Challenge → System → System
  register_challenge contract_id c state ch s = record s {
    contracts =
        insert contract_id
          (record c { state = state; challenges = c.challenges ++ (ch.challenge_id ∷ []) })
          s.contracts;
    challenges = insert ch.challenge_id contract_id s.challenges;
    active_epochs =
        insert contract_id (record { id = ch.epoch_id; end_after_current = ch.trigger_status })
          s.active_epochs;
  }

  -- InitiateAvailabilityChallenge. A failed transition would leave the state empty (`other`).
  unfoldable pub initiate_availability_challenge :
      Draws → ℕ → Bytes → System → System × Result ContractError (Bytes × Bytes)
  initiate_availability_challenge d now contract_id s = elim (lookup contract_id s.contracts) [
    | none ↦ (s, err unknown_contract)
    | some c ↦
        if is_unready c
        then (s, err not_startable)
        else if leb c.ends_at now
        then (
          record s { contracts = insert contract_id (record c { state = expired }) s.contracts },
          err contract_expired,
        )
        else let (epochs', r) =
            next_challenge d contract_id c (lookup contract_id s.active_epochs) s.epochs in
          let s' = record s { epochs = epochs' } in
          elim r [
            | err e ↦ (s', err e)
            | ok ch ↦ elim (started_state c.state) [
              | err e ↦ (
                record s' {
                  contracts =
                      insert contract_id (record c { state = ContractState.other }) s.contracts;
                },
                err (bad_transition e),
              )
              | ok state ↦
                  (register_challenge contract_id c state ch s', ok (ch.challenge_id, ch.epoch_id))
            ]
          ]
  ]
