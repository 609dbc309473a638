-- ===== src/Availability/Contract/Settle.antt =====
-- SettleAvailabilityContract and TerminateAvailabilityContract of
-- availability/availability-contracts/contract/contract.go.
use cipher.Prelude.{ℕ, leb, not, ◌&&◌, Bytes, is_empty, Result, ok, err, if◌then◌else◌}
use cipher.Availability.Types.{
  AvailabilityContract, ContractState, SettlementStatus, active, completed, expired, terminated,
  state_eq, is_terminal,
}
use cipher.Availability.Lifecycle.{transition}
use cipher.Availability.Settlement.{calculate_settlement}
use cipher.Availability.Contract.Store.{
  ContractError, not_settleable, no_results, already_terminal, bad_transition, settlement_failed,
  System, Body, with_contract,
}

-- The state that a settlement leads to: the clock decides.
abbrev pub settled_state : AvailabilityContract → ℕ → ContractState
settled_state c now = if leb c.ends_at now then expired else completed

-- What SettleAvailabilityContract does to its contract. The computed settlement is stored before
-- the transition is tried, and stays if that fails.
unfoldable pub settle : ℕ → ℕ → Body SettlementStatus
settle now now' c =
    if not (state_eq c.state active) && not (state_eq c.state expired)
    then (c, err not_settleable)
    else if is_empty c.results
    then (c, err no_results)
    else elim (calculate_settlement c.funded_amount c.results) [
      | err e ↦ (c, err (settlement_failed e))
      | ok st ↦ elim (transition c.state (settled_state c now)) [
        | err e ↦ (record c { settlement = st }, err (bad_transition e))
        | ok next ↦ (
          record c { settlement = record st { finalized_at = now' }; state = next },
          ok st.status,
        )
      ]
    ]

-- SettleAvailabilityContract
unfoldable pub settle_availability_contract :
    ℕ → ℕ → Bytes → System → System × Result ContractError SettlementStatus
unfolding with_contract settle
settle_availability_contract now now' contract_id s = with_contract contract_id (settle now now') s

-- What TerminateAvailabilityContract does to its contract.
unfoldable pub terminate : ℕ → Body ContractState
terminate now c =
    if is_terminal c.state
    then (c, err already_terminal)
    else elim (transition c.state terminated) [
      | err e ↦ (c, err (bad_transition e))
      | ok next ↦
          let st = c.settlement in
          (
            record c {
              state = next;
              settlement = record st { status = SettlementStatus.terminated; finalized_at = now };
            },
            ok next,
          )
    ]

-- TerminateAvailabilityContract
unfoldable pub terminate_availability_contract :
    ℕ → Bytes → System → System × Result ContractError ContractState
unfolding with_contract terminate
terminate_availability_contract now contract_id s = with_contract contract_id (terminate now) s
