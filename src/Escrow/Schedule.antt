-- ===== src/Escrow/Schedule.antt =====
-- The dispatcher of availability/escrow-payment/coordinator/dispatcher.go: its state, and how a contract's
-- schedule enters it. The mutex makes each method one step.
use cipher.Prelude.{
  ℕ, ltb, Bool, not, ◌||◌, ◌==◌, Option, none, some, List, [], ◌∷◌, Bytes, bytes_eq, is_empty,
  length, zeros, lookup, insert, Result, ok, err, if◌then◌else◌,
}
use cipher.Escrow.Bindings.{EscrowContractId}
use cipher.Escrow.Payment.{PaymentState}
use cipher.Escrow.Coordinator.{CoordinatorError, PublisherCoordinator, register_contract}
use cipher.Escrow.FailRecord.{FailRecord}

pub data DispatchError : Type 0 where
  invalid_argument schedule_exists schedule_not_found duplicate_challenge : DispatchError
  unknown_status sequence_exhausted unregistered_provider : DispatchError
  coordinator_failed : CoordinatorError → DispatchError

pub data DispatchKind : Type 0 where
  dispatched_pass dispatched_fail : DispatchKind

-- FailRecord{}
abbrev pub no_fail_record : FailRecord
no_fail_record = record {
  escrow_contract_id = [];
  provider_eth_address = [];
  challenge_id = [];
  period = 0;
  sequence = 0;
  issued_at = 0;
  publisher_signature = [];
}

pub record DispatchResult : Type 0 where
  pub kind : DispatchKind
  pub payment_state : PaymentState
  pub fail_record : FailRecord
  pub consecutive_failures : ℕ
  pub slash_eligible : Bool
  pub slash_evidence : List FailRecord

pub record PaymentSchedule : Type 0 where
  pub payment_per_pass : ℕ
  pub max_payment : ℕ
  pub current_cumulative_payment : ℕ
  pub sequence : ℕ
  pub escrow_contract_id : EscrowContractId
  pub processed_challenges : List (Bytes × Bool)
  pub consecutive_failures : ℕ
  pub fail_streak : List FailRecord

pub record AvailabilityPaymentDispatcher : Type 0 where
  pub coordinator : PublisherCoordinator
  pub schedules : List (Bytes × PaymentSchedule)
  pub signer_key : Bytes
  pub failure_threshold : ℕ

-- WithFailureThreshold
unfoldable pub with_failure_threshold :
    ℕ → AvailabilityPaymentDispatcher → Result DispatchError AvailabilityPaymentDispatcher
with_failure_threshold k d =
    if k == 0 then err invalid_argument else ok (record d { failure_threshold = k })

-- The loop over the options, each a threshold.
unfoldable pub apply_options :
    List ℕ → AvailabilityPaymentDispatcher → Result DispatchError AvailabilityPaymentDispatcher
apply_options [] d = ok d
apply_options (k ∷ opts) d = elim (with_failure_threshold k d) [
  | err e ↦ err e
  | ok d' ↦ apply_options opts d'
]

-- NewAvailabilityPaymentDispatcher
unfoldable pub new_availability_payment_dispatcher :
    Option PublisherCoordinator
    → Bytes
    → List ℕ
    → Result DispatchError AvailabilityPaymentDispatcher
new_availability_payment_dispatcher none signer_key opts = err invalid_argument
new_availability_payment_dispatcher (some c) signer_key opts =
    if not (length signer_key == 64)
    then err invalid_argument
    else apply_options opts
        (record { coordinator = c; schedules = []; signer_key = signer_key; failure_threshold = 3 })

-- RegisterContractSchedule once the coordinator has answered.
unfoldable pub registered :
    Bytes
    → EscrowContractId
    → ℕ
    → ℕ
    → AvailabilityPaymentDispatcher
    → PublisherCoordinator × Result CoordinatorError (Unit {0})
    → AvailabilityPaymentDispatcher × Result DispatchError (Unit {0})
registered contract_id escrow per_pass max d (c, err e) =
    (record d { coordinator = c }, err (coordinator_failed e))
registered contract_id escrow per_pass max d (c, ok u) = (
  record d {
    coordinator = c;
    schedules =
        insert contract_id
          (record {
            payment_per_pass = per_pass;
            max_payment = max;
            current_cumulative_payment = 0;
            sequence = 0;
            escrow_contract_id = escrow;
            processed_challenges = [];
            consecutive_failures = 0;
            fail_streak = [];
          })
          d.schedules;
  },
  ok tt,
)

-- RegisterContractSchedule
unfoldable pub register_contract_schedule :
    Bytes
    → EscrowContractId
    → ℕ
    → ℕ
    → AvailabilityPaymentDispatcher
    → AvailabilityPaymentDispatcher × Result DispatchError (Unit {0})
register_contract_schedule contract_id escrow per_pass max d =
    if is_empty contract_id || bytes_eq escrow (zeros 32)
    then (d, err invalid_argument)
    else if per_pass == 0 || max == 0
    then (d, err invalid_argument)
    else if ltb max per_pass
    then (d, err invalid_argument)
    else elim (lookup contract_id d.schedules) [
      | some s ↦ (d, err schedule_exists)
      | none ↦
          registered contract_id escrow per_pass max d
            (register_contract contract_id escrow d.coordinator)
    ]
