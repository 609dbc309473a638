-- ===== src/Escrow/Dispatcher.antt =====
-- availability/escrow-payment/coordinator/dispatcher.go. The dispatcher's mutex makes a dispatch one
-- step; the clock is an argument, SHA-256, Ed25519 and the coordinator's signer are parameters.
use cipher.Prelude.{
  ℕ, ◌+◌, ◌-◌, ◌%◌, ◌^◌, ltb, leb, Bool, true, false, ◌==◌, Option, none, some, List, [], ◌∷◌, ◌++◌,
  Bytes, is_empty, length, drop, lookup, insert, Result, ok, err, if◌then◌else◌,
}
use cipher.Availability.Types.{AvailabilityResult, AvailabilityStatus, pass, fail, other}
use cipher.Escrow.Bindings.{EscrowContractId, escrow_string}
use cipher.Escrow.Payment.{PaymentState, StateSigner, Adapter, ChainCall, no_payment}
use cipher.Escrow.Coordinator.{
  CoordinatorError, no_settler, PublisherCoordinator, provider_address_for,
  create_and_sign_payment_state, settle_contract_on_chain, submit_latest_payment_state_on_chain,
}
use cipher.Escrow.FailRecord.{FailRecord, sign_fail_record}
use cipher.Escrow.Schedule.{
  DispatchError, invalid_argument, schedule_not_found, duplicate_challenge, unknown_status,
  sequence_exhausted, unregistered_provider, coordinator_failed, dispatched_pass, dispatched_fail,
  no_fail_record, DispatchResult, PaymentSchedule, AvailabilityPaymentDispatcher,
}

-- validateResult
unfoldable pub validate_result : AvailabilityResult → Result DispatchError (Unit {0})
validate_result result =
    if is_empty result.contract_id
    then err invalid_argument
    else if is_empty result.challenge_id
    then err invalid_argument
    else elim result.result [ pass ↦ ok tt | fail ↦ ok tt | other s ↦ err unknown_status ]

-- The capped addition of a PASS, on 64 bits.
unfoldable pub next_cumulative : PaymentSchedule → ℕ
next_cumulative s =
    if leb ((s.max_payment + 2 ^ 64 - s.current_cumulative_payment) % 2 ^ 64) s.payment_per_pass
    then s.max_payment
    else (s.current_cumulative_payment + s.payment_per_pass) % 2 ^ 64

-- `if newCount < math.MaxUint32 { newCount++ }`
unfoldable pub next_count : PaymentSchedule → ℕ
next_count s =
    if ltb s.consecutive_failures (2 ^ 32 - 1)
    then s.consecutive_failures + 1
    else s.consecutive_failures

-- Only the most recent k records.
unfoldable pub keep_recent : ℕ → List FailRecord → List FailRecord
keep_recent k streak = if ltb k (length streak) then drop (length streak - k) streak else streak

-- The case of a PASS once the coordinator has answered.
unfoldable pub commit_pass :
    AvailabilityResult
    → PaymentSchedule
    → AvailabilityPaymentDispatcher
    → PublisherCoordinator × Result CoordinatorError PaymentState
    → AvailabilityPaymentDispatcher × Result DispatchError DispatchResult
commit_pass result s d (c, err e) = (record d { coordinator = c }, err (coordinator_failed e))
commit_pass result s d (c, ok signed) = (
  record d {
    coordinator = c;
    schedules =
        insert result.contract_id
          (record s {
            sequence = s.sequence + 1;
            current_cumulative_payment = next_cumulative s;
            processed_challenges = insert result.challenge_id true s.processed_challenges;
            consecutive_failures = 0;
            fail_streak = [];
          })
          d.schedules;
  },
  ok (record {
    kind = dispatched_pass;
    payment_state = signed;
    fail_record = no_fail_record;
    consecutive_failures = 0;
    slash_eligible = false;
    slash_evidence = [];
  }),
)

-- The schedule that a FAIL leaves.
unfoldable pub failed_schedule : ℕ → Bytes → FailRecord → PaymentSchedule → PaymentSchedule
failed_schedule k challenge_id rec s = record s {
  sequence = s.sequence + 1;
  processed_challenges = insert challenge_id true s.processed_challenges;
  consecutive_failures = next_count s;
  fail_streak = keep_recent k (s.fail_streak ++ (rec ∷ []));
}

-- The case of a FAIL once its record is built.
unfoldable pub commit_fail :
    AvailabilityResult
    → PaymentSchedule
    → AvailabilityPaymentDispatcher
    → Option FailRecord
    → AvailabilityPaymentDispatcher × Result DispatchError DispatchResult
commit_fail result s d none = (d, err unregistered_provider)
commit_fail result s d (some rec) =
    let s' = failed_schedule d.failure_threshold result.challenge_id rec s in
    let eligible = leb d.failure_threshold (next_count s) in
    (
      record d { schedules = insert result.contract_id s' d.schedules },
      ok (record {
        kind = dispatched_fail;
        payment_state = no_payment;
        fail_record = rec;
        consecutive_failures = next_count s;
        slash_eligible = eligible;
        slash_evidence = if eligible then s'.fail_streak else [];
      }),
    )

-- `schedule.ProcessedChallenges[challengeID]`
abbrev pub marked : Option Bool → Bool
marked none = false
marked (some b) = b

unfoldable pub is_processed : Bytes → PaymentSchedule → Bool
is_processed challenge_id s = marked (lookup challenge_id s.processed_challenges)

module _ (sha256 : Bytes → Bytes) (ed25519_sign : Bytes → Bytes → Bytes) where
  -- buildAndSignFailRecord; none when the provider has no address.
  unfoldable pub build_and_sign_fail_record :
      ℕ
      → AvailabilityResult
      → EscrowContractId
      → ℕ
      → AvailabilityPaymentDispatcher
      → Option FailRecord
  build_and_sign_fail_record now result escrow sequence d =
      elim (provider_address_for result d.coordinator) [
        | none ↦ none
        | some address ↦ some (
            sign_fail_record sha256 ed25519_sign d.signer_key (record {
              escrow_contract_id = escrow_string escrow;
              provider_eth_address = address;
              challenge_id = result.challenge_id;
              period = result.period;
              sequence = sequence;
              issued_at = now;
              publisher_signature = [];
            }))
      ]

  module _ (signer : StateSigner) where
    -- The switch of DispatchAvailabilityResult over the result's status.
    unfoldable pub dispatch_status :
        ℕ
        → AvailabilityResult
        → PaymentSchedule
        → AvailabilityPaymentDispatcher
        → AvailabilityStatus
        → AvailabilityPaymentDispatcher × Result DispatchError DispatchResult
    dispatch_status now result s d pass = commit_pass result s d (
        create_and_sign_payment_state signer now result (next_cumulative s) (s.sequence + 1)
          d.coordinator)
    dispatch_status now result s d fail =
        commit_fail result s d
          (build_and_sign_fail_record now result s.escrow_contract_id (s.sequence + 1) d)
    dispatch_status now result s d (other status) = (d, err unknown_status)

    -- DispatchAvailabilityResult behind the validation, with the schedule it found.
    unfoldable pub dispatch_scheduled :
        ℕ
        → AvailabilityResult
        → AvailabilityPaymentDispatcher
        → Option PaymentSchedule
        → AvailabilityPaymentDispatcher × Result DispatchError DispatchResult
    dispatch_scheduled now result d none = (d, err schedule_not_found)
    dispatch_scheduled now result d (some s) =
        if is_processed result.challenge_id s
        then (d, err duplicate_challenge)
        else if s.sequence == 2 ^ 64 - 1
        then (d, err sequence_exhausted)
        else dispatch_status now result s d result.result

    -- DispatchAvailabilityResult
    unfoldable pub dispatch_availability_result :
        ℕ
        → AvailabilityResult
        → AvailabilityPaymentDispatcher
        → AvailabilityPaymentDispatcher × Result DispatchError DispatchResult
    dispatch_availability_result now result d = elim (validate_result result) [
      | err e ↦ (d, err e)
      | ok u ↦ dispatch_scheduled now result d (lookup result.contract_id d.schedules)
    ]

-- GetContractPaymentSchedule: a copy, which is the value.
unfoldable pub get_contract_payment_schedule :
    Bytes → AvailabilityPaymentDispatcher → Option PaymentSchedule
get_contract_payment_schedule contract_id d = lookup contract_id d.schedules

-- The fallback of SubmitSettlementOnChain. The error's text is the one of a missing settler only.
unfoldable pub settle_or_submit :
    Adapter
    → ℕ
    → Bytes
    → PublisherCoordinator
    → List ChainCall × Result CoordinatorError (Unit {0})
    → List ChainCall × Result CoordinatorError (Unit {0})
settle_or_submit adapter now escrow_key c (calls, err no_settler) =
    submit_latest_payment_state_on_chain adapter now escrow_key c
settle_or_submit adapter now escrow_key c answer = answer

-- SubmitSettlementOnChain
unfoldable pub submit_settlement_on_chain :
    Adapter
    → ℕ
    → Bytes
    → AvailabilityPaymentDispatcher
    → List ChainCall × Result DispatchError (Unit {0})
submit_settlement_on_chain adapter now contract_id d = elim (lookup contract_id d.schedules) [
  | none ↦ ([], err schedule_not_found)
  | some s ↦
      let escrow_key = escrow_string s.escrow_contract_id in
      let (calls, r) =
        settle_or_submit adapter now escrow_key d.coordinator
          (settle_contract_on_chain adapter now escrow_key d.coordinator) in
      (calls, elim r [ ok u ↦ ok u | err e ↦ err (coordinator_failed e) ])
]
