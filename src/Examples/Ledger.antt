-- ===== src/Examples/Ledger.antt =====
-- The theorems on contracts at concrete inputs.
use cipher.Prelude.{
  ℕ, ◌+◌, ◌-◌, ◌*◌, ◌/◌, ◌==◌, ◌<◌, ◌^◌, ◌≡◌, ◌≢◌, ◌↔◌, refl, Bool, true, false, Option, some, none,
  List, [], ◌∷◌, ◌++◌, Bytes, bytes, ok, err, arith, length, lookup, if◌then◌else◌, All,
}
use cipher.Prelude.Int.{pos}
use cipher.Prelude.Encoding.{hex_encode}
use cipher.Availability.Types.{
  AvailabilityContract, ChallengeResult, ContractState, SettlementStatus, agreed, active, expired,
  completed,
}
use cipher.Availability.Lifecycle.{transition}
use cipher.Availability.Challenge.{Draws}
use cipher.Availability.Contract.Store.{System}
use cipher.Availability.Contract.Funding.{new_contract}
use cipher.Availability.Contract.Record.{record_result}
use cipher.Availability.Contract.Settle.{settle}
use cipher.Availability.Contract.Invariant.{IsSound}
use cipher.Availability.Contract.History.{
  Call, configure, create, fund_contract, settle_contract, empty_system, perform, perform_all,
  reachable-IsSound,
}
use cipher.Availability.Contract.Endings.{perform-final}
use cipher.Availability.Contract.Refusals.{settle_expired_fails, record_result-once}
use cipher.Examples.StandIns.{digest, signed_by}

abbrev calls : List Call
calls =
    configure true
    ∷ create (some (pos 2)) (some (1 ∷ [])) 10 (bytes "alice") (bytes "bob") (bytes "song")
        (pos 100) (pos 50)
    ∷ fund_contract (bytes "contract-01") (pos 100)
    ∷ []

-- The contract that these calls create and fund.
abbrev funded : AvailabilityContract
funded = record {
  id = bytes "contract-01";
  publisher_id = bytes "alice";
  provider_id = bytes "bob";
  file_id = bytes "song";
  total_chunks = pos 2;
  payment_amount = pos 100;
  funded_amount = pos 100;
  duration = pos 50;
  created_at = 10;
  ends_at = 60;
  state = agreed;
  challenges = [];
  results = [];
  availability_results = [];
  settlement = record {
    status = SettlementStatus.pending;
    released_amount = pos 0;
    withheld_amount = pos 0;
    successful_proofs = 0;
    failed_proofs = 0;
    finalized_at = 0;
  };
}

reachable-IsSound_example :
    IsSound
      (perform_all digest signed_by calls empty_system).challenges
      (bytes "contract-01")
      funded
unfolding perform_all perform lookup cipher.Availability.Contract.Funding.fund_availability_contract
    cipher.Availability.Contract.Funding.create_availability_contract
    cipher.Availability.Contract.Funding.configure_chunk_count_resolver
    cipher.Availability.Contract.Funding.create_resolved cipher.Prelude.insert
    cipher.Prelude.bytes_eq hex_encode new_contract transition
reachable-IsSound_example =
    reachable-IsSound digest signed_by calls (bytes "contract-01") funded refl

abbrev done : AvailabilityContract
done = record funded { state = completed }

abbrev done_system : System
done_system = record empty_system { contracts = (bytes "contract-01", done) ∷ [] }

perform-final_example :
    lookup
      (bytes "contract-01")
      (perform digest signed_by (settle_contract 20 21 (bytes "contract-01")) done_system).contracts
    ≡ some done
unfolding lookup cipher.Prelude.bytes_eq
perform-final_example =
    perform-final digest signed_by (bytes "contract-01") done
      (settle_contract 20 21 (bytes "contract-01")) done_system refl tt refl

abbrev pub passed : ChallengeResult
passed = record { challenge_id = bytes "c"; succeeded = true; recorded_at = 0 }

abbrev running : AvailabilityContract
running = record funded { state = active }

abbrev owners : List (Bytes × Bytes)
owners = (bytes "c", bytes "contract-01") ∷ []

record_result-once_example :
    let k = bytes "c" in
    let c' = (record_result (bytes "contract-01") k passed 20 owners running).0 in
    ((record_result (bytes "contract-01") k passed 30 owners c').0 ≡ c')
    × ((e : ContractState) → (record_result (bytes "contract-01") k passed 30 owners c').1 ≢ ok e)
unfolding record_result lookup cipher.Prelude.bytes_eq
    cipher.Availability.Contract.Record.is_recorded
record_result-once_example =
    let k = bytes "c" in
    record_result-once (bytes "contract-01") k passed passed 20 30 owners owners running active refl

abbrev late : AvailabilityContract
late = record funded { state = expired; results = passed ∷ [] }

settle_expired_fails_example :
    ((settle 70 71 late).0.state ≡ expired)
    × ((e : SettlementStatus) → (settle 70 71 late).1 ≢ ok e)
settle_expired_fails_example = settle_expired_fails 70 71 late refl

abbrev draws : Draws
draws = record {
  random_id = some (2 ∷ []);
  random_nonce = some (3 ∷ []);
  epoch_time = 20;
  challenge_time = 21;
}

abbrev funded_system : System
funded_system = record empty_system {
  contracts = (bytes "contract-01", funded) ∷ [];
  has_resolver = true;
}
