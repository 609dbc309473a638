-- ===== src/Availability/Contract/Effects.antt =====
-- What each operation of contract.go does to its contract, on every branch.
use cipher.Prelude.{
  ℕ, ◌≡◌, true, false, not, ◌&&◌, List, Bytes, bytes_eq, ok, err, arith, ◌⊎◌, inl, inr, Bool-cases,
  Result-cases, is_empty,
}
use cipher.Prelude.Int.{ℤ, eq_ℤ, eq_ℤ→eq}
use cipher.Availability.Types.{
  AvailabilityContract, ChallengeResult, SettlementState, SettlementStatus, proposed, agreed,
  active, expired, terminated, state_eq, is_terminal,
}
use cipher.Availability.Lifecycle.{transition, transition-Follows, invalid_transition}
use cipher.Availability.Settlement.{calculate_settlement}
use cipher.Availability.Contract.Store.{
  ContractError, not_proposed, wrong_amount, not_active, foreign_challenge, mismatched_result,
  already_recorded, not_settleable, no_results, settlement_failed, bad_transition, already_terminal,
}
use cipher.Availability.Contract.Funding.{fund}
use cipher.Availability.Contract.Record.{is_recorded, append_result, record_result, owns}
use cipher.Availability.Contract.Settle.{settle, terminate, settled_state}

-- What `fund` does: nothing, with an error, or the one funding of a proposed contract.
pub fund_effect :
    (amount : ℤ) (c : AvailabilityContract)
    → ((e : ContractError) × (fund amount c ≡ (c, err e)))
      ⊎ ((c.state ≡ proposed)
          × (amount ≡ c.payment_amount)
          × (fund amount c ≡ (record c { funded_amount = amount; state = agreed }, ok agreed)))
unfolding fund transition
fund_effect amount c = elim (Bool-cases (state_eq c.state proposed)) [
  | inr a ↦ inl (not_proposed, ground arith)
  | inl a ↦ elim (Bool-cases (eq_ℤ amount c.payment_amount)) [
    | inr b ↦ inl (wrong_amount, ground arith)
    | inl b ↦ inr (ground arith, eq_ℤ→eq _ _ b, ground arith)
  ]
]

-- What `record_result` does: nothing, with an error, or it appends the first result of a challenge
-- that was issued for this active contract.
pub record_result_effect :
    (id k : Bytes) (r : ChallengeResult) (now : ℕ) (owners : List (Bytes × Bytes))
    (c : AvailabilityContract)
    → ((e : ContractError) × (record_result id k r now owners c ≡ (c, err e)))
      ⊎ ((c.state ≡ active)
          × (owns id k owners ≡ true)
          × (is_recorded k c.results ≡ false)
          × (record_result id k r now owners c ≡ (append_result id k r now c, ok active)))
unfolding record_result
record_result_effect id k r now owners c = elim (Bool-cases (state_eq c.state active)) [
  | inr a ↦ inl (not_active, rw a)
  | inl a ↦ elim (Bool-cases (owns id k owners)) [
    | inr b ↦ inl (foreign_challenge, rw (a, b))
    | inl b ↦ elim (Bool-cases (not (is_empty r.challenge_id) && not (bytes_eq r.challenge_id k))) [
      | inl m ↦ inl (mismatched_result, rw (a, b, m))
      | inr m ↦ elim (Bool-cases (is_recorded k c.results)) [
        | inl n ↦ inl (already_recorded, rw (a, b, m, n))
        | inr n ↦
            let live : c.state ≡ active = ground arith in
            inr (live, b, n, rw (a, b, m, n) (ground arith))
      ]
    ]
  ]
]

-- What `settle` does: nothing, with an error; or, on an active contract, it stores the settlement
-- and ends the contract; or, on an expired one, it stores the settlement and fails.
pub settle_effect :
    (now now' : ℕ) (c : AvailabilityContract)
    → ((e : ContractError) × (settle now now' c ≡ (c, err e)))
      ⊎ (((st : SettlementState) × (c.state ≡ active)
            × (calculate_settlement c.funded_amount c.results ≡ ok st)
            × (settle now now' c ≡ (
              record c {
                settlement = record st { finalized_at = now' };
                state = settled_state c now;
              },
              ok st.status,
            )))
          ⊎ ((st : SettlementState) × (e : ContractError) × (c.state ≡ expired)
              × (calculate_settlement c.funded_amount c.results ≡ ok st)
              × (settle now now' c ≡ (record c { settlement = st }, err e))))
unfolding settle transition
settle_effect now now' c = elim (Bool-cases (state_eq c.state active)) [
  | inr a ↦ elim (Bool-cases (state_eq c.state expired)) [
    | inr b ↦ inl (not_settleable, rw (a, b))
    | inl b ↦ elim (Bool-cases (is_empty c.results)) [
      | inl m ↦ inl (no_results, rw (a, b, m))
      | inr m ↦ elim (Result-cases (calculate_settlement c.funded_amount c.results)) [
        | inl (x, d) ↦ inl (settlement_failed x, rw (a, b, m, d))
        | inr (st, d) ↦ inr (
            inr (
              st,
              bad_transition (invalid_transition c.state (settled_state c now)),
              ground arith,
              d,
              ground arith,
            ))
      ]
    ]
  ]
  | inl a ↦ elim (Bool-cases (is_empty c.results)) [
    | inl b ↦ inl (no_results, rw (a, b))
    | inr b ↦ elim (Result-cases (calculate_settlement c.funded_amount c.results)) [
      | inl (x, d) ↦ inl (settlement_failed x, rw (a, b, d))
      | inr (st, d) ↦ inr (inl (st, ground arith, d, ground arith))
    ]
  ]
]

pub terminate_effect :
    (now : ℕ) (c : AvailabilityContract)
    → ((e : ContractError) × (terminate now c ≡ (c, err e)))
      ⊎ (let st = c.settlement in
          (is_terminal c.state ≡ false)
          × (terminate now c ≡ (
            record c {
              state = terminated;
              settlement = record st { status = SettlementStatus.terminated; finalized_at = now };
            },
            ok terminated,
          )))
unfolding terminate is_terminal
terminate_effect now c = elim (Bool-cases (is_terminal c.state)) [
  | inl a ↦ inl (already_terminal, rw a)
  | inr a ↦ elim (Result-cases (transition c.state terminated)) [
    | inl (x, d) ↦ inl (bad_transition x, rw (a, d))
    | inr (next, d) ↦ inr (a, rw (a, d) (rw ((transition-Follows c.state terminated d).1)))
  ]
]
