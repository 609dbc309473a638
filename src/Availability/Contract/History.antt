-- ===== src/Availability/Contract/History.antt =====
-- Histories of the contract store of contract.go: any sequence of its operations.
use cipher.Prelude.{ℕ, ◌≡◌, Bool, true, false, Option, some, List, [], ◌∷◌, Bytes, lookup}
use cipher.Prelude.Int.{ℤ}
use cipher.Availability.Types.{AvailabilityContract, Challenge, ChallengeResult}
use cipher.Availability.Challenge.{Draws}
use cipher.Availability.Verification.{ChallengeResponse, build_challenge_result}
use cipher.Availability.Epoch.History.{empty_store}
use cipher.Availability.Contract.Store.{System}
use cipher.Availability.Contract.Funding.{
  configure_chunk_count_resolver, create_availability_contract, fund, fund_availability_contract,
}
use cipher.Availability.Contract.Initiate.{initiate_availability_challenge}
use cipher.Availability.Contract.Record.{
  record_result, record_availability_result, verify_and_record_challenge_response,
}
use cipher.Availability.Contract.Settle.{
  settle, settle_availability_contract, terminate, terminate_availability_contract,
}
use cipher.Availability.Contract.Invariant.{IsSound, with_contract-AllSound}
use cipher.Availability.Contract.Bodies.{
  fund-IsSound, record_result-IsSound, settle-IsSound, terminate-IsSound,
}
use cipher.Availability.Contract.Steps.{Sound, create-Sound, initiate-Sound}

-- The public operations that change the state, with what they take from outside.
pub data Call : Type 0 where
  configure : Bool → Call
  create : Option ℤ → Option Bytes → ℕ → Bytes → Bytes → Bytes → ℤ → ℤ → Call
  fund_contract : Bytes → ℤ → Call
  initiate : Draws → ℕ → Bytes → Call
  record_one : ℕ → Bytes → Bytes → ChallengeResult → Call
  verify_and_record : ℕ → ℕ → Bytes → Challenge → ChallengeResponse → Bytes → Bytes → ℤ → Call
  settle_contract : ℕ → ℕ → Bytes → Call
  terminate_contract : ℕ → Bytes → Call

abbrev pub empty_system : System
empty_system = record {
  contracts = [];
  challenges = [];
  active_epochs = [];
  has_resolver = false;
  epochs = empty_store;
}

module _ (sha256 : Bytes → Bytes) (ed25519_verify : Bytes → Bytes → Bytes → Bool) where
  unfoldable pub perform : Call → System → System
  perform (configure given) s = (configure_chunk_count_resolver given s).0
  perform (create resolved random_id now p q f amount duration) s =
      (create_availability_contract resolved random_id now p q f amount duration s).0
  perform (fund_contract id amount) s = (fund_availability_contract id amount s).0
  perform (initiate d now id) s = (initiate_availability_challenge sha256 d now id s).0
  perform (record_one now id k r) s = (record_availability_result now id k r s).0
  perform (verify_and_record now now' id c r root key t) s =
      (verify_and_record_challenge_response sha256 ed25519_verify now now' id c r root key t s).0
  perform (settle_contract now now' id) s = (settle_availability_contract now now' id s).0
  perform (terminate_contract now id) s = (terminate_availability_contract now id s).0

  unfoldable pub perform_all : List Call → System → System
  perform_all [] s = s
  perform_all (c ∷ cs) s = perform_all cs (perform c s)

  record-Sound :
      (now : ℕ) (id k : Bytes) (r : ChallengeResult) (s : System)
      → Sound s
      → Sound (record_availability_result now id k r s).0
  unfolding record_availability_result
  record-Sound now id k r s inv =
      with_contract-AllSound id (record_result id k r now s.challenges) s
        (record_result-IsSound s.challenges id k r now) inv

  pub perform-Sound : (c : Call) (s : System) → Sound s → Sound (perform c s)
  unfolding perform
  perform-Sound (configure true) s inv = unfold configure_chunk_count_resolver in inv
  perform-Sound (configure false) s inv = unfold configure_chunk_count_resolver in inv
  perform-Sound (create resolved random_id now p q f amount duration) s inv =
      create-Sound resolved random_id now p q f amount duration s inv
  perform-Sound (fund_contract id amount) s inv =
      unfold fund_availability_contract in
      with_contract-AllSound id (fund amount) s (fund-IsSound s.challenges id amount) inv
  perform-Sound (initiate d now id) s inv = initiate-Sound sha256 d now id s inv
  perform-Sound (record_one now id k r) s inv = record-Sound now id k r s inv
  perform-Sound (verify_and_record now now' id c r root key t) s inv =
      unfold verify_and_record_challenge_response in
      record-Sound now' id c.challenge_id
        (build_challenge_result sha256 ed25519_verify c r root key t now) s inv
  perform-Sound (settle_contract now now' id) s inv =
      unfold settle_availability_contract in
      with_contract-AllSound id (settle now now') s (settle-IsSound s.challenges id now now') inv
  perform-Sound (terminate_contract now id) s inv =
      unfold terminate_availability_contract in
      with_contract-AllSound id (terminate now) s (terminate-IsSound s.challenges id now) inv

  perform_all-Sound : (cs : List Call) (s : System) → Sound s → Sound (perform_all cs s)
  unfolding perform_all
  perform_all-Sound [] s inv = inv
  perform_all-Sound (c ∷ cs) s inv = perform_all-Sound cs (perform c s) (perform-Sound c s inv)

  -- After any sequence of operations, with any clocks, random bytes and responses, every contract
  -- in the store is sound.
  pub reachable-IsSound :
      (cs : List Call) (id : Bytes) (c : AvailabilityContract)
      → lookup id (perform_all cs empty_system).contracts ≡ some c
      → IsSound (perform_all cs empty_system).challenges id c
  reachable-IsSound cs id c found =
      perform_all-Sound cs empty_system (λ i d h. unfold lookup in cc) id c found
