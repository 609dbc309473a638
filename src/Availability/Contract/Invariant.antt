-- ===== src/Availability/Contract/Invariant.antt =====
-- What holds of every contract in the store of contract.go between two operations.
use cipher.Prelude.{
  ℕ, ◌+◌, ◌%◌, ◌^◌, ◌≡◌, ◌≢◌, subst₂, Bool, true, false, none, some, List, [], ◌∷◌, Bytes, lookup,
  insert, lookup-insert, lookup-insert_cases, ok, err, All, arith, inl, inr, Option-cases,
}
use cipher.Prelude.Int.{pos, is_positive}
use cipher.Availability.Types.{
  AvailabilityContract, AvailabilityResult, ChallengeResult, SettlementState, ContractState,
  proposed, agreed, transferring, ready, active, completed, expired, terminated, disputed, other,
}
use cipher.Availability.Settlement.{calculate_settlement}
use cipher.Availability.Contract.Store.{unknown_contract, System, Body, with_contract}
use cipher.Availability.Contract.Record.{is_recorded, status_of}

-- The states in which an operation leaves a contract.
abbrev pub is_resting : ContractState → Bool
is_resting transferring = false
is_resting ready = false
is_resting disputed = false
is_resting other = false
is_resting _ = true

-- The states that a contract reaches only when it is funded.
abbrev pub is_paid_up : ContractState → Bool
is_paid_up agreed = true
is_paid_up active = true
is_paid_up completed = true
is_paid_up expired = true
is_paid_up _ = false

abbrev pub is_known : Bytes → List (Bytes × Bytes) → Bool
is_known challenge_id owners = elim (lookup challenge_id owners) [ none ↦ false | some o ↦ true ]

-- No two results are of one challenge.
abbrev pub Distinct : List ChallengeResult → Type 0
Distinct [] = Unit
Distinct (r ∷ rs) = (is_recorded r.challenge_id rs ≡ false) × Distinct rs

-- Each result has its payment record, numbered from `n` on.
abbrev pub Mirrors : Bytes → Bytes → ℕ → List ChallengeResult → List AvailabilityResult → Type 0
Mirrors id provider n [] [] = Unit
Mirrors id provider n [] (a ∷ others) = ⊥
Mirrors id provider n (r ∷ rs) [] = ⊥
Mirrors id provider n (r ∷ rs) (a ∷ others) =
    (a.contract_id ≡ id)
    × (a.provider_id ≡ provider)
    × (a.period ≡ n % 2 ^ 64)
    × (a.challenge_id ≡ r.challenge_id)
    × (a.result ≡ status_of r.succeeded)
    × (a.timestamp ≡ r.recorded_at)
    × Mirrors id provider (n + 1) rs others

-- The settlement of a contract is what its funded amount and results give.
abbrev pub Settles : AvailabilityContract → SettlementState → Type 0
Settles c st =
    (calculate_settlement c.funded_amount c.results ≡ ok st)
    × (c.settlement.status ≡ st.status)
    × (c.settlement.released_amount ≡ st.released_amount)
    × (c.settlement.withheld_amount ≡ st.withheld_amount)

pub record IsSound (owners : List (Bytes × Bytes)) (id : Bytes) (c : AvailabilityContract)
    : Type 0 where
  pub named : c.id ≡ id
  pub priced : is_positive c.payment_amount ≡ true
  pub resting : is_resting c.state ≡ true
  pub unfunded : c.state ≡ proposed → c.funded_amount ≡ pos 0
  pub funded : is_paid_up c.state ≡ true → c.funded_amount ≡ c.payment_amount
  pub idle : is_paid_up c.state ≡ false → c.state ≢ terminated → c.results ≡ []
  pub issued : All (λ r. is_known r.challenge_id owners ≡ true) c.results
  pub once : Distinct c.results
  pub mirrored : Mirrors id c.provider_id 1 c.results c.availability_results
  pub settled : c.state ≡ completed → (st : SettlementState) × Settles c st

abbrev pub AllSound : List (Bytes × Bytes) → List (Bytes × AvailabilityContract) → Type 0
AllSound owners m =
    (id : Bytes) (c : AvailabilityContract) → lookup id m ≡ some c → IsSound owners id c

pub insert-AllSound :
    (owners : List (Bytes × Bytes)) (m : List (Bytes × AvailabilityContract)) (id : Bytes)
    (c : AvailabilityContract)
    → AllSound owners m
    → IsSound owners id c
    → AllSound owners (insert id c m)
insert-AllSound owners m id c inv h j d found = elim (lookup-insert_cases id j c d m found) [
  | inl (p, q) ↦ subst₂ (IsSound owners) p q h
  | inr (n, old) ↦ inv j d old
]

pub with_contract-none :
    {A : Type 0} (id : Bytes) (body : Body A) (s : System)
    → lookup id s.contracts ≡ none
    → with_contract id body s ≡ (s, err unknown_contract)
unfolding with_contract
with_contract-none id body s h = rw (h, with_contract)

pub with_contract-some :
    {A : Type 0} (id : Bytes) (body : Body A) (s : System) (c : AvailabilityContract)
    → lookup id s.contracts ≡ some c
    → with_contract id body s
      ≡ (record s { contracts = insert id (body c).0 s.contracts }, (body c).1)
unfolding with_contract
with_contract-some id body s c h = rw (h, with_contract)

-- An operation on one contract keeps the store sound if it keeps that contract sound.
pub with_contract-AllSound :
    {A : Type 0} (id : Bytes) (body : Body A) (s : System)
    → ((c : AvailabilityContract) → IsSound s.challenges id c → IsSound s.challenges id (body c).0)
    → AllSound s.challenges s.contracts
    → AllSound (with_contract id body s).0.challenges (with_contract id body s).0.contracts
with_contract-AllSound id body s keeps inv = elim (Option-cases (lookup id s.contracts)) [
  | inl n ↦ rw (with_contract-none id body s n) inv
  | inr (c, found) ↦
      rw (with_contract-some id body s c found)
        (insert-AllSound s.challenges s.contracts id (body c).0 inv (keeps c (inv id c found)))
]

-- A new challenge in the owners' map does not unsettle a contract.
is_known-insert :
    (k j v : Bytes) (owners : List (Bytes × Bytes))
    → is_known j owners ≡ true
    → is_known j (insert k v owners) ≡ true
is_known-insert k j v owners h = ground (arith, lookup-insert k j v owners)

pub issued-insert :
    (k v : Bytes) (owners : List (Bytes × Bytes)) (rs : List ChallengeResult)
    → All (λ r. is_known r.challenge_id owners ≡ true) rs
    → All (λ r. is_known r.challenge_id (insert k v owners) ≡ true) rs
issued-insert k v owners [] h = tt
issued-insert k v owners (r ∷ rs) h =
    (is_known-insert k r.challenge_id v owners h.0, issued-insert k v owners rs h.1)
