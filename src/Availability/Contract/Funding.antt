-- ===== src/Availability/Contract/Funding.antt =====
-- ConfigureChunkCountResolver, CreateAvailabilityContract and FundAvailabilityContract of
-- availability/availability-contracts/contract/contract.go.
use cipher.Prelude.{
  ℕ, ◌+◌, Bool, true, false, not, ◌||◌, Option, none, some, [], ◌++◌, Bytes, bytes, is_empty,
  insert, Result, ok, err, if◌then◌else◌,
}
use cipher.Prelude.Int.{ℤ, pos, is_positive, eq_ℤ, pos_part}
use cipher.Prelude.Encoding.{hex_encode}
use cipher.Availability.Types.{
  AvailabilityContract, ContractState, proposed, agreed, state_eq, SettlementStatus,
  SettlementState,
}
use cipher.Availability.Lifecycle.{transition}
use cipher.Availability.Contract.Store.{
  ContractError, nil_resolver, missing_ids, non_positive_terms, no_resolver, resolve_failed,
  non_positive_count, no_entropy, not_proposed, wrong_amount, bad_transition, System, Body,
  with_contract,
}

-- ConfigureChunkCountResolver; the argument says whether the resolver is not nil.
unfoldable pub configure_chunk_count_resolver :
    Bool → System → System × Result ContractError (Unit {0})
configure_chunk_count_resolver false s = (s, err nil_resolver)
configure_chunk_count_resolver true s = (record s { has_resolver = true }, ok tt)

abbrev pending_settlement : SettlementState
pending_settlement = record {
  status = SettlementStatus.pending;
  released_amount = pos 0;
  withheld_amount = pos 0;
  successful_proofs = 0;
  failed_proofs = 0;
  finalized_at = 0;
}

unfoldable pub new_contract : Bytes → Bytes → Bytes → Bytes → ℤ → ℤ → ℤ → ℕ → AvailabilityContract
new_contract id publisher_id provider_id file_id total_chunks payment_amount duration now = record {
  id = id;
  publisher_id = publisher_id;
  provider_id = provider_id;
  file_id = file_id;
  total_chunks = total_chunks;
  payment_amount = payment_amount;
  funded_amount = pos 0;
  duration = duration;
  created_at = now;
  ends_at = now + pos_part duration;
  state = proposed;
  challenges = [];
  results = [];
  availability_results = [];
  settlement = pending_settlement;
}

-- CreateAvailabilityContract from the resolver's answer on.
unfoldable pub create_resolved :
    Option ℤ
    → Option Bytes
    → ℕ
    → Bytes
    → Bytes
    → Bytes
    → ℤ
    → ℤ
    → System
    → System × Result ContractError Bytes
create_resolved none random_id now publisher_id provider_id file_id payment_amount duration s =
    (s, err resolve_failed)
create_resolved (some total_chunks) none now publisher_id provider_id file_id payment_amount
      duration s =
    if not (is_positive total_chunks) then (s, err non_positive_count) else (s, err no_entropy)
create_resolved (some total_chunks) (some r) now publisher_id provider_id file_id payment_amount
      duration s =
    let id = bytes "contract-" ++ hex_encode r in
    let c =
      new_contract id publisher_id provider_id file_id total_chunks payment_amount duration now in
    if not (is_positive total_chunks)
    then (s, err non_positive_count)
    else (record s { contracts = insert id c s.contracts }, ok id)

-- CreateAvailabilityContract. `resolved` is the resolver's answer, `random_id` the 16 bytes of
-- `rand.Read`; each is `none` if the call fails.
unfoldable pub create_availability_contract :
    Option ℤ
    → Option Bytes
    → ℕ
    → Bytes
    → Bytes
    → Bytes
    → ℤ
    → ℤ
    → System
    → System × Result ContractError Bytes
create_availability_contract resolved random_id now publisher_id provider_id file_id payment_amount
      duration s =
    if is_empty publisher_id || is_empty provider_id || is_empty file_id
    then (s, err missing_ids)
    else if not (is_positive payment_amount) || not (is_positive duration)
    then (s, err non_positive_terms)
    else if not s.has_resolver
    then (s, err no_resolver)
    else create_resolved resolved random_id now publisher_id provider_id file_id payment_amount
        duration s

-- What FundAvailabilityContract does to its contract.
unfoldable pub fund : ℤ → Body ContractState
fund payment_amount c =
    if not (state_eq c.state proposed)
    then (c, err not_proposed)
    else if not (eq_ℤ payment_amount c.payment_amount)
    then (c, err wrong_amount)
    else elim (transition c.state agreed) [
      | err e ↦ (c, err (bad_transition e))
      | ok next ↦ (record c { funded_amount = payment_amount; state = next }, ok next)
    ]

-- FundAvailabilityContract
unfoldable pub fund_availability_contract :
    Bytes → ℤ → System → System × Result ContractError ContractState
unfolding with_contract fund
fund_availability_contract contract_id payment_amount s =
    with_contract contract_id (fund payment_amount) s
