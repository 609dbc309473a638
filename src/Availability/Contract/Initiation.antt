-- ===== src/Availability/Contract/Initiation.antt =====
-- InitiateAvailabilityChallenge of contract.go, branch by branch.
use cipher.Prelude.{
  ℕ, ◌≡◌, ◌⊎◌, inl, inr, ap, true, false, none, some, Bytes, lookup, insert, Result, ok, err, leb,
  leb→le, ==_refl, ◌≤◌, ◌<◌, arith, Bool-cases, Option-cases, Result-cases,
}
use cipher.Prelude.Int.{ℤ, pos, negsuc, eq_ℤ}
use cipher.Availability.Types.{AvailabilityContract, Challenge, agreed, active, expired}
use cipher.Availability.Lifecycle.{transition}
use cipher.Availability.Epoch.{EpochStore}
use cipher.Availability.Challenge.{Draws}
use cipher.Availability.Contract.Store.{
  ContractError, unknown_contract, not_startable, contract_expired, System,
}
use cipher.Availability.Contract.Initiate.{
  is_unready, started_state, next_challenge, register_challenge, initiate_availability_challenge,
}

-- A contract that a challenge may start on: agreed or active, and funded in full.
pub record IsStartable (c : AvailabilityContract) : Type 0 where
  pub live : (c.state ≡ agreed) ⊎ (c.state ≡ active)
  pub paid : c.funded_amount ≡ c.payment_amount

is_unready-IsStartable : (c : AvailabilityContract) → is_unready c ≡ false → IsStartable c
unfolding is_unready
is_unready-IsStartable c h = record { live = ground arith; paid = ground arith }

eq_ℤ_refl : (x : ℤ) → eq_ℤ x x ≡ true
eq_ℤ_refl (pos n) = ==_refl n
eq_ℤ_refl (negsuc n) = ==_refl n

-- The guard refuses only such contracts as no challenge may start on.
unready_lem : (c : AvailabilityContract) → is_unready c ≡ true → ¬ IsStartable c
unfolding is_unready
unready_lem c h able =
    let same : eq_ℤ c.funded_amount c.payment_amount ≡ true =
      rw able.paid (eq_ℤ_refl c.payment_amount) in
    elim able.live [
      | inl e ↦ absurd (ground (arith, h, e, same))
      | inr e ↦ absurd (ground (arith, h, e, same))
    ]

started_state-active :
    (c : AvailabilityContract) → IsStartable c → started_state c.state ≡ ok active
unfolding started_state transition
started_state-active c h = ground arith

module _ (sha256 : Bytes → Bytes) (d : Draws) (now : ℕ) (id : Bytes) (s : System) where
  -- The outcomes of the operation, as `initiate_outcome` lists them.
  pub data Initiated (r : System × Result ContractError (Bytes × Bytes)) : Type 0 where
    missing : lookup id s.contracts ≡ none → r ≡ (s, err unknown_contract) → Initiated r
    refused :
        (c : AvailabilityContract)
        → lookup id s.contracts ≡ some c
        → ¬ IsStartable c
        → r ≡ (s, err not_startable)
        → Initiated r
    expires :
        (c : AvailabilityContract)
        → lookup id s.contracts ≡ some c
        → IsStartable c
        → c.ends_at ≤ now
        → r ≡ (
          record s { contracts = insert id (record c { state = expired }) s.contracts },
          err contract_expired,
        )
        → Initiated r
    fails :
        (c : AvailabilityContract) (e : ContractError)
        → lookup id s.contracts ≡ some c
        → IsStartable c
        → now < c.ends_at
        → (epochs' : EpochStore)
        → next_challenge sha256 d id c (lookup id s.active_epochs) s.epochs ≡ (epochs', err e)
        → r ≡ (record s { epochs = epochs' }, err e)
        → Initiated r
    starts :
        (c : AvailabilityContract) (ch : Challenge)
        → lookup id s.contracts ≡ some c
        → IsStartable c
        → now < c.ends_at
        → (epochs' : EpochStore)
        → next_challenge sha256 d id c (lookup id s.active_epochs) s.epochs ≡ (epochs', ok ch)
        → r ≡ (
          register_challenge sha256 id c active ch (record s { epochs = epochs' }),
          ok (ch.challenge_id, ch.epoch_id),
        )
        → Initiated r

  abbrev attempt : AvailabilityContract → EpochStore × Result ContractError Challenge
  attempt c = next_challenge sha256 d id c (lookup id s.active_epochs) s.epochs

  on_missing :
      lookup id s.contracts ≡ none
      → initiate_availability_challenge sha256 d now id s ≡ (s, err unknown_contract)
  unfolding initiate_availability_challenge
  on_missing n = rw (n, initiate_availability_challenge)

  module _ (c : AvailabilityContract) (found : lookup id s.contracts ≡ some c) where
    on_refused :
        is_unready c ≡ true
        → initiate_availability_challenge sha256 d now id s ≡ (s, err not_startable)
    unfolding initiate_availability_challenge
    on_refused a = rw (found, a, initiate_availability_challenge)

    on_expired :
        is_unready c ≡ false
        → leb c.ends_at now ≡ true
        → initiate_availability_challenge sha256 d now id s ≡ (
          record s { contracts = insert id (record c { state = expired }) s.contracts },
          err contract_expired,
        )
    unfolding initiate_availability_challenge
    on_expired a late = rw (found, a, late, initiate_availability_challenge)

    on_failure :
        (e : ContractError)
        → is_unready c ≡ false
        → leb c.ends_at now ≡ false
        → (attempt c).1 ≡ err e
        → initiate_availability_challenge sha256 d now id s
          ≡ (record s { epochs = (attempt c).0 }, err e)
    unfolding initiate_availability_challenge
    on_failure e a early r = rw (found, a, early, r, initiate_availability_challenge)

    on_start :
        (ch : Challenge)
        → is_unready c ≡ false
        → leb c.ends_at now ≡ false
        → (attempt c).1 ≡ ok ch
        → initiate_availability_challenge sha256 d now id s ≡ (
          register_challenge sha256 id c active ch (record s { epochs = (attempt c).0 }),
          ok (ch.challenge_id, ch.epoch_id),
        )
    unfolding initiate_availability_challenge
    on_start ch a early r = rw (
      found,
      a,
      early,
      r,
      started_state-active c (is_unready-IsStartable c a),
      initiate_availability_challenge,
    )

    with_startable :
        is_unready c ≡ false → Initiated (initiate_availability_challenge sha256 d now id s)
    with_startable a =
        let able = is_unready-IsStartable c a in
        elim (Bool-cases (leb c.ends_at now)) [
          | inl late ↦ expires c found able (leb→le c.ends_at now late) (on_expired a late)
          | inr early ↦ elim (Result-cases (attempt c).1) [
            | inl (e, r) ↦
                fails c e found able (ground (arith, early)) (attempt c).0
                  (ap (λ q. ((attempt c).0, q)) r) (on_failure e a early r)
            | inr (ch, r) ↦
                starts c ch found able (ground (arith, early)) (attempt c).0
                  (ap (λ q. ((attempt c).0, q)) r) (on_start ch a early r)
          ]
        ]

  pub initiate_outcome : Initiated (initiate_availability_challenge sha256 d now id s)
  initiate_outcome = elim (Option-cases (lookup id s.contracts)) [
    | inl n ↦ missing n (on_missing n)
    | inr (c, found) ↦ elim (Bool-cases (is_unready c)) [
      | inl a ↦ refused c found (unready_lem c a) (on_refused c found a)
      | inr a ↦ with_startable c found a
    ]
  ]
