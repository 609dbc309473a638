-- ===== src/Examples/Vouchers.antt =====
-- The theorems on the escrow coordinator and its dispatcher at concrete inputs.
use cipher.Prelude.{
  ℕ, ◌+◌, ◌*◌, ◌/◌, ◌%◌, ◌^◌, ◌<◌, ◌≡◌, ◌≢◌, ◌⊎◌, refl, Bool, true, false, some, none, List, [],
  ◌∷◌, ◌++◌, Bytes, bytes, zeros, Result, ok, err, arith, length, lookup, All, ==_refl,
}
use cipher.Prelude.Int.{pos}
use cipher.Availability.Types.{AvailabilityResult, AvailabilityStatus, pass, fail}
use cipher.Escrow.Bindings.{
  Registry, address_string, escrow_string, parse_ethereum_address, parse_escrow_contract_id,
}
use cipher.Escrow.Payment.{
  PaymentState, PaymentStateStore, StateSigner, PaymentError, empty_store, payment_payload,
  payment_state_digest, Adapter, no_payment,
}
use cipher.Escrow.Coordinator.{
  PublisherCoordinator, CoordinatorError, create_and_sign_payment_state,
}
use cipher.Escrow.FailRecord.{FailRecord, verify_fail_streak, build_fail_record_payload}
use cipher.Escrow.Schedule.{
  PaymentSchedule, AvailabilityPaymentDispatcher, DispatchResult, DispatchError,
  duplicate_challenge, new_availability_payment_dispatcher, register_contract_schedule,
  dispatched_pass, dispatched_fail, no_fail_record,
}
use cipher.Escrow.Dispatcher.{dispatch_availability_result, submit_settlement_on_chain}
use cipher.Escrow.Ledger.{IsKeyPair, IsSound}
use cipher.Escrow.History
use cipher.Escrow.Tally.{Tally, tally}
use cipher.Escrow.Reached.{Reachable-IsSound}
use cipher.Escrow.Encoded.{parse-string, Fits, SameTerms, payment_state_digest-binds}
use cipher.Escrow.Forward
use cipher.Escrow.Repeats.{dispatch_refused, dispatch_once}
use cipher.Escrow.Evidence.{dispatch-slash_evidence}
use cipher.Escrow.Redeeming.{IsRedeemable, IsSigned, Redeems}
use cipher.Escrow.Settling.{submit_settlement_outcome}
use cipher.Examples.StandIns.{digest, sign, verify, sign-verifies}

parse-string_example :
    (parse_ethereum_address (address_string (171 ∷ zeros 19)) ≡ ok (171 ∷ zeros 19))
    × (parse_escrow_contract_id (escrow_string (7 ∷ zeros 31)) ≡ ok (7 ∷ zeros 31))
parse-string_example =
    parse-string (171 ∷ zeros 19) (7 ∷ zeros 31) refl (omega arith) refl (omega arith)

abbrev private_key : Bytes
private_key = 9 ∷ zeros 63

abbrev public_key : Bytes
public_key = 9 ∷ zeros 31

keys : IsKeyPair sign verify private_key public_key
keys = record { verifies = sign-verifies private_key; signature_size = λ m. refl; key_size = refl }

signs_lem :
    (p q : PaymentState)
    → ◌≡◌ {A = Result PaymentError PaymentState}
        (ok (record p { publisher_signature = 1 ∷ [] }))
        (ok q)
    → (q ≡ (record p { publisher_signature = q.publisher_signature }))
      × (q.publisher_signature ≢ [])
signs_lem p q h = (ground (arith, h), λ e. ground (arith, h, e))

-- A signer whose signature is one byte.
abbrev signer : StateSigner
signer = record { sign = λ p. ok (record p { publisher_signature = 1 ∷ [] }); signs = signs_lem }

abbrev escrow : Bytes
escrow = 7 ∷ zeros 31

abbrev coordinator : PublisherCoordinator
coordinator = record {
  publisher_id = bytes "alice";
  payment_state_ttl = pos (24 * 3600 * 10 ^ 9);
  has_settler = true;
  bindings = record { providers = (bytes "bob", 171 ∷ zeros 19) ∷ []; contracts = [] };
  stores = [];
}

abbrev outcome : AvailabilityStatus → AvailabilityResult
outcome status = record {
  contract_id = bytes "c";
  provider_id = bytes "bob";
  challenge_id = bytes "x";
  period = 1;
  result = status;
  timestamp = 0;
}

abbrev fresh : AvailabilityPaymentDispatcher
fresh = record {
  coordinator = coordinator;
  schedules = [];
  signer_key = private_key;
  failure_threshold = 1;
}

abbrev scheduled : AvailabilityPaymentDispatcher
scheduled = (register_contract_schedule (bytes "c") escrow 40 100 fresh).0

-- A dispatch that runs: a proof that unfolds it computes with the whole component.
run :
    ℕ
    → AvailabilityResult
    → AvailabilityPaymentDispatcher
    → AvailabilityPaymentDispatcher × Result DispatchError DispatchResult
unfolding cipher.Escrow.Bindings.address_string cipher.Escrow.Bindings.bind
    cipher.Escrow.Bindings.bind_contract cipher.Escrow.Bindings.bind_provider
    cipher.Escrow.Bindings.escrow_id cipher.Escrow.Bindings.escrow_string
    cipher.Escrow.Bindings.new_registry cipher.Escrow.Bindings.parse_escrow_contract_id
    cipher.Escrow.Bindings.parse_ethereum_address cipher.Escrow.Bindings.provider_address
    cipher.Escrow.Coordinator.authorize cipher.Escrow.Coordinator.commit_signed
    cipher.Escrow.Coordinator.create_and_sign_payment_state
    cipher.Escrow.Coordinator.new_publisher_coordinator
    cipher.Escrow.Coordinator.provider_address_for cipher.Escrow.Coordinator.redeemable
    cipher.Escrow.Coordinator.register_contract cipher.Escrow.Coordinator.register_provider
    cipher.Escrow.Coordinator.set_payment_state_ttl cipher.Escrow.Coordinator.set_settler
    cipher.Escrow.Coordinator.settle_contract_on_chain cipher.Escrow.Coordinator.store_signed
    cipher.Escrow.Coordinator.submit_latest_payment_state_on_chain
    cipher.Escrow.Dispatcher.build_and_sign_fail_record cipher.Escrow.Dispatcher.commit_fail
    cipher.Escrow.Dispatcher.commit_pass cipher.Escrow.Dispatcher.dispatch_availability_result
    cipher.Escrow.Dispatcher.dispatch_scheduled cipher.Escrow.Dispatcher.dispatch_status
    cipher.Escrow.Dispatcher.failed_schedule cipher.Escrow.Dispatcher.get_contract_payment_schedule
    cipher.Escrow.Dispatcher.is_processed cipher.Escrow.Dispatcher.keep_recent
    cipher.Escrow.Dispatcher.next_count cipher.Escrow.Dispatcher.next_cumulative
    cipher.Escrow.Dispatcher.settle_or_submit cipher.Escrow.Dispatcher.submit_settlement_on_chain
    cipher.Escrow.Dispatcher.validate_result cipher.Escrow.FailRecord.build_fail_record_payload
    cipher.Escrow.FailRecord.sign_fail_record cipher.Escrow.FailRecord.verify_after
    cipher.Escrow.FailRecord.verify_fail_record cipher.Escrow.FailRecord.verify_fail_streak
    cipher.Escrow.Payment.create_payment_state cipher.Escrow.Payment.get_latest_payment_state
    cipher.Escrow.Payment.payment_payload cipher.Escrow.Payment.payment_state_digest
    cipher.Escrow.Payment.sign_payment_state cipher.Escrow.Payment.store_payment_state
    cipher.Escrow.Payment.submit_payment_state cipher.Escrow.Payment.verify_payment_state
    cipher.Escrow.Schedule.apply_options cipher.Escrow.Schedule.new_availability_payment_dispatcher
    cipher.Escrow.Schedule.register_contract_schedule cipher.Escrow.Schedule.registered
    cipher.Escrow.Schedule.with_failure_threshold cipher.Prelude.Encoding.be_bytes
    cipher.Prelude.Encoding.hex_encode cipher.Prelude.Encoding.prefixed cipher.Prelude.bytes_eq
    cipher.Prelude.insert cipher.Prelude.lookup
run = dispatch_availability_result digest sign signer

scheduled-Reachable : History.Reachable digest sign signer private_key scheduled
unfolding new_availability_payment_dispatcher cipher.Escrow.Schedule.apply_options
    cipher.Escrow.Schedule.with_failure_threshold
scheduled-Reachable = History.reach coordinator (1 ∷ []) fresh scheduled (omega arith) refl (
    History.more fresh fresh scheduled (History.stay fresh)
      (History.register (bytes "c") escrow 40 100 (omega arith) fresh))

abbrev paid : AvailabilityPaymentDispatcher
paid = (dispatch_availability_result digest sign signer 5 (outcome pass) scheduled).0

abbrev paid_schedule : PaymentSchedule
paid_schedule = record {
  payment_per_pass = 40;
  max_payment = 100;
  current_cumulative_payment = 40;
  sequence = 1;
  escrow_contract_id = escrow;
  processed_challenges = (bytes "x", true) ∷ [];
  consecutive_failures = 0;
  fail_streak = [];
}

paid-Reachable : History.Reachable digest sign signer private_key paid
unfolding new_availability_payment_dispatcher cipher.Escrow.Schedule.apply_options
    cipher.Escrow.Schedule.with_failure_threshold
paid-Reachable = History.reach coordinator (1 ∷ []) fresh paid (omega arith) refl (
    History.more fresh scheduled paid
      (History.more fresh fresh scheduled (History.stay fresh)
        (History.register (bytes "c") escrow 40 100 (omega arith) fresh))
      (History.dispatch 5 (outcome pass) scheduled))

-- The one result of the contract is a pass.
abbrev one_pass : Tally
one_pass = record { passes = 1; failed = []; total = 1 }

paid-tally : tally digest sign signer private_key (bytes "c") paid-Reachable ≡ one_pass
unfolding tally paid-Reachable run cipher.Escrow.Tally.run_tally cipher.Escrow.Tally.step_tally
paid-tally = refl

Reachable-IsSound_example :
    IsSound digest verify public_key paid.failure_threshold
      (tally digest sign signer private_key (bytes "c") paid-Reachable)
      paid_schedule
unfolding run
Reachable-IsSound_example =
    Reachable-IsSound digest verify private_key public_key sign signer keys (bytes "c")
      paid_schedule paid-Reachable refl

abbrev voucher : PaymentState
voucher = record {
  contract_id = escrow_string escrow;
  publisher = bytes "alice";
  provider = address_string (171 ∷ zeros 19);
  sequence = 1;
  period = 1;
  cumulative_payment = 40;
  last_challenge_id = bytes "x";
  valid_until = 24 * 3600;
  status = pass;
  publisher_signature = 1 ∷ [];
}

dispatch_refused_example : paid ≡ paid
unfolding run
dispatch_refused_example =
    dispatch_refused digest sign signer 6 (outcome fail) paid paid duplicate_challenge refl

dispatch_once_example :
    dispatch_availability_result digest sign signer 7 (outcome fail) paid
    ≡ (paid, err duplicate_challenge)
unfolding run
dispatch_once_example =
    dispatch_once digest sign signer 5 7 (outcome pass) (outcome fail) scheduled paid paid
      (record {
        kind = dispatched_pass;
        payment_state = voucher;
        fail_record = no_fail_record;
        consecutive_failures = 0;
        slash_eligible = false;
        slash_evidence = [];
      })
      refl (History.stay paid) refl refl refl

abbrev unsigned_record : FailRecord
unsigned_record = record {
  escrow_contract_id = escrow_string escrow;
  provider_eth_address = address_string (171 ∷ zeros 19);
  challenge_id = bytes "x";
  period = 1;
  sequence = 1;
  issued_at = 5;
  publisher_signature = [];
}

abbrev failure : FailRecord
failure = record unsigned_record {
  publisher_signature = sign private_key (digest (build_fail_record_payload unsigned_record));
}

dispatch-slash_evidence_example :
    (length (failure ∷ []) ≡ scheduled.failure_threshold)
    × (verify_fail_streak digest verify (failure ∷ []) public_key ≡ true)
unfolding run
dispatch-slash_evidence_example =
    dispatch-slash_evidence digest verify private_key public_key sign signer keys 5 (outcome fail)
      scheduled (dispatch_availability_result digest sign signer 5 (outcome fail) scheduled).0
      (record {
        kind = dispatched_fail;
        payment_state = no_payment;
        fail_record = failure;
        consecutive_failures = 1;
        slash_eligible = true;
        slash_evidence = failure ∷ [];
      })
      (address_string (171 ∷ zeros 19)) scheduled-Reachable refl refl (refl, tt)

create-Follows_example :
    (s : PaymentStateStore) × (lookup (escrow_string escrow) paid.coordinator.stores ≡ some s)
    × (s.has_state ≡ true)
    × Forward.Follows voucher s.latest
unfolding run
create-Follows_example =
    Forward.create-Follows signer 5 (outcome pass) 40 1 scheduled.coordinator paid.coordinator
      paid.coordinator voucher refl (Forward.stay paid.coordinator)

abbrev accepting : Adapter
accepting call = ok tt

submit_settlement_outcome_example :
    let x = submit_settlement_on_chain accepting 5 (bytes "c") paid in
    ((e : DispatchError) × (x ≡ ([], err e)))
    ⊎ ((s : PaymentSchedule) × (lookup (bytes "c") paid.schedules ≡ some s)
        × (p : PaymentState) × IsRedeemable 5
            (escrow_string s.escrow_contract_id)
            paid.coordinator
            p
        × IsSigned (escrow_string s.escrow_contract_id) p
        × Redeems DispatchError accepting
            (escrow_string s.escrow_contract_id)
            p
            paid.coordinator.has_settler
            x.0
            x.1)
submit_settlement_outcome_example = submit_settlement_outcome accepting 5 (bytes "c") paid

voucher-Fits : Fits voucher
unfolding run
voucher-Fits = omega arith

payment_state_digest-binds_example :
    SameTerms voucher voucher
    ⊎ ((x y : Bytes) × (x ≢ y)
        × (x ≡ payment_payload voucher)
        × (y ≡ payment_payload voucher)
        × (digest x ≡ digest y))
payment_state_digest-binds_example =
    payment_state_digest-binds digest voucher voucher voucher-Fits voucher-Fits refl
