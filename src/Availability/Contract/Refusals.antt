-- ===== src/Availability/Contract/Refusals.antt =====
-- What contract.go refuses: the settlement of an expired contract, and a second result.
use cipher.Prelude.{
  ℕ, ◌≡◌, ◌≢◌, inl, inr, refl, sym, true, List, [], ◌∷◌, ◌++◌, Bytes, bytes_eq_refl, subst, ok,
  arith,
}
use cipher.Availability.Types.{
  AvailabilityContract, ChallengeResult, ContractState, SettlementStatus, expired,
}
use cipher.Availability.Contract.Record.{is_recorded, append_result, record_result}
use cipher.Availability.Contract.Settle.{settle}
use cipher.Availability.Contract.Effects.{record_result_effect, settle_effect}

-- An expired contract cannot be settled: settling it never succeeds and leaves it expired.
pub settle_expired_fails :
    (now now' : ℕ) (c : AvailabilityContract)
    → c.state ≡ expired
    → (settle now now' c).0.state ≡ expired
      × ((e : SettlementStatus) → (settle now now' c).1 ≢ ok e)
settle_expired_fails now now' c h = elim (settle_effect now now' c) [
  | inl (x, q) ↦ rw q (h, λ e z. cc)
  | inr (inl (st, a, d, q)) ↦ absurd (ground arith)
  | inr (inr (st, x, a, d, q)) ↦ rw q (h, λ e z. cc)
]

is_recorded-append :
    (k : Bytes) (rs : List ChallengeResult) (r : ChallengeResult)
    → r.challenge_id ≡ k
    → is_recorded k (rs ++ (r ∷ [])) ≡ true
unfolding is_recorded
is_recorded-append k [] r h = let t = bytes_eq_refl k in rw (h, t)
is_recorded-append k (x ∷ rs) r h = let t = is_recorded-append k rs r h in ground arith

recorded_refuses :
    (id k : Bytes) (r : ChallengeResult) (now : ℕ) (owners : List (Bytes × Bytes))
    (c : AvailabilityContract)
    → is_recorded k c.results ≡ true
    → (record_result id k r now owners c).0 ≡ c
      × ((e : ContractState) → (record_result id k r now owners c).1 ≢ ok e)
recorded_refuses id k r now owners c h = elim (record_result_effect id k r now owners c) [
  | inl (x, q) ↦ rw q (refl, λ e z. cc)
  | inr (a, b, n, q) ↦ absurd (ground arith)
]

-- A challenge gets at most one result: after its result is recorded, recording one for it in the
-- contract fails and leaves the contract as it is.
pub record_result-once :
    (id k : Bytes) (r r' : ChallengeResult) (now now' : ℕ) (owners owners' : List (Bytes × Bytes))
    (c : AvailabilityContract) (st : ContractState)
    → (record_result id k r now owners c).1 ≡ ok st
    → let c' = (record_result id k r now owners c).0 in
      (record_result id k r' now' owners' c').0 ≡ c'
      × ((e : ContractState) → (record_result id k r' now' owners' c').1 ≢ ok e)
record_result-once id k r r' now now' owners owners' c st h =
    elim (record_result_effect id k r now owners c) [
      | inl (x, q) ↦ absurd (subst (λ p. p.1 ≡ ok st → ⊥) (sym q) (λ z. cc) h)
      | inr (a, b, n, q) ↦ rw q (
          recorded_refuses id k r' now' owners' (append_result id k r now c)
            (unfold append_result in is_recorded-append k c.results _ refl))
    ]
