-- ===== src/Escrow/Outcomes.antt =====
-- What a registration and a dispatch of dispatcher.go do, on every branch.
use cipher.Prelude.{
  ℕ, ◌+◌, ◌^◌, ◌-◌, ◌≡◌, ◌≢◌, ◌∙◌, sym, refl, ap, subst, ◌⊎◌, inl, inr, true, false, not, ◌==◌,
  some, Option-cases, Bool-cases, Result-cases, Bytes, lookup, Result, ok, err, if◌then◌else◌, Bool,
  arith,
}
use cipher.Availability.Types.{AvailabilityResult, AvailabilityStatus, pass, fail, other}
use cipher.Escrow.Payment.{
  PaymentError, PaymentState, PaymentStateStore, StateSigner, create_payment_state,
  store_payment_state, is_pass,
}
use cipher.Escrow.Bindings.{escrow_id, provider_address, escrow_string, address_string}
use cipher.Escrow.Coordinator.{
  CoordinatorError, PublisherCoordinator, commit_signed, store_signed, authorize,
  create_and_sign_payment_state, is_old,
}
use cipher.Prelude.Int.{is_positive}
use cipher.Escrow.FailRecord.{FailRecord}
use cipher.Escrow.Schedule.{
  DispatchError, PaymentSchedule, AvailabilityPaymentDispatcher, DispatchResult, schedule_not_found,
  duplicate_challenge, sequence_exhausted, unknown_status, unregistered_provider,
  coordinator_failed,
}
use cipher.Escrow.Dispatcher.{
  validate_result, is_processed, next_cumulative, commit_pass, commit_fail,
  build_and_sign_fail_record, dispatch_status, dispatch_scheduled, dispatch_availability_result,
}

-- An operation of the coordinator on `c` that fails leaves `c`.
Keeps : PublisherCoordinator → PublisherCoordinator × Result CoordinatorError PaymentState → Type 0
Keeps c (c', err e) = c' ≡ c
Keeps c (c', ok signed) = Unit {0}

Keeps-if :
    (c : PublisherCoordinator) (b : Bool)
    (x y : PublisherCoordinator × Result CoordinatorError PaymentState)
    → Keeps c x
    → Keeps c y
    → Keeps c (if b then x else y)
Keeps-if c true x y hx hy = hx
Keeps-if c false x y hx hy = hy

commit_signed-Keeps :
    (key : Bytes) (signed : PaymentState) (c : PublisherCoordinator)
    (answer : PaymentStateStore × Result PaymentError (Unit {0}))
    → Keeps c (commit_signed key signed c answer)
unfolding Keeps commit_signed
commit_signed-Keeps key signed c (s, err e) = refl
commit_signed-Keeps key signed c (s, ok u) = tt

store_signed-Keeps :
    (key : Bytes) (s : PaymentStateStore) (c : PublisherCoordinator)
    (r : Result PaymentError PaymentState)
    → Keeps c (store_signed key s c r)
unfolding Keeps store_signed
store_signed-Keeps key s c (err e) = refl
store_signed-Keeps key s c (ok signed) =
    commit_signed-Keeps key signed c (store_payment_state signed s)

module _ (signer : StateSigner) where
  authorize-Keeps :
      (now : ℕ) (result : AvailabilityResult) (cumulative sequence : ℕ) (key address : Bytes)
      (s : PaymentStateStore) (c : PublisherCoordinator)
      → Keeps c (authorize signer now result cumulative sequence key address s c)
  unfolding Keeps authorize
  authorize-Keeps now result cumulative sequence key address s c =
      let created =
        create_payment_state (record result { provider_id = address_string address }) c.publisher_id
          cumulative sequence in
      Keeps-if c (is_old sequence cumulative s) _ _ refl (elim (Result-cases created) [
        | inl (e, h) ↦ rw h refl
        | inr (p, h) ↦ rw h (store_signed-Keeps key s c _)
      ])

  create-Keeps :
      (now : ℕ) (result : AvailabilityResult) (cumulative sequence : ℕ) (c : PublisherCoordinator)
      → Keeps c (create_and_sign_payment_state signer now result cumulative sequence c)
  unfolding Keeps create_and_sign_payment_state
  create-Keeps now result cumulative sequence c =
      Keeps-if c (not (is_pass result.result)) _ _ refl (
        Keeps-if c (not (is_positive c.payment_state_ttl)) _ _ refl
          (elim (Option-cases (escrow_id result.contract_id c.bindings)) [
            | inl h ↦ rw h refl
            | inr (escrow, h) ↦
                elim (Option-cases (provider_address result.provider_id c.bindings)) [
                  | inl k ↦ rw (h, k) refl
                  | inr (address, k) ↦
                      elim (Option-cases (lookup (escrow_string escrow) c.stores)) [
                        | inl l ↦ rw (h, k, l) refl
                        | inr (s, l) ↦
                            rw (h, k, l)
                              (authorize-Keeps now result cumulative sequence (escrow_string escrow)
                                address s c)
                      ]
                ]
          ]))

  -- CreateAndSignPaymentState leaves the coordinator when it fails.
  pub create_refused :
      (now : ℕ) (result : AvailabilityResult) (cumulative sequence : ℕ)
      (c c' : PublisherCoordinator) (e : CoordinatorError)
      → create_and_sign_payment_state signer now result cumulative sequence c ≡ (c', err e)
      → c' ≡ c
  unfolding Keeps
  create_refused now result cumulative sequence c c' e h =
      subst (Keeps c) h (create-Keeps now result cumulative sequence c)

  module _ (sha256 : Bytes → Bytes) (ed25519_sign : Bytes → Bytes → Bytes) where
    -- What the switch over the status does for a schedule.
    abbrev pub Dispatched :
        ℕ
        → AvailabilityResult
        → PaymentSchedule
        → AvailabilityPaymentDispatcher
        → AvailabilityStatus
        → AvailabilityPaymentDispatcher × Result DispatchError DispatchResult
        → Type 0
    Dispatched now result s d status answer =
        ((c : PublisherCoordinator) × (signed : PaymentState) × (create_and_sign_payment_state
              signer now result (next_cumulative s) (s.sequence + 1) d.coordinator
            ≡ (c, ok signed))
          × (status ≡ pass)
          × (answer ≡ commit_pass result s d (c, ok signed)))
        ⊎ ((rec : FailRecord) × (build_and_sign_fail_record sha256 ed25519_sign now result
                s.escrow_contract_id (s.sequence + 1) d
              ≡ some rec)
            × (status ≡ fail)
            × (answer ≡ commit_fail result s d (some rec)))

    pass_effect :
        (result : AvailabilityResult) (s : PaymentSchedule) (d : AvailabilityPaymentDispatcher)
        (x : PublisherCoordinator × Result CoordinatorError PaymentState)
        → Keeps d.coordinator x
        → ((e : DispatchError) × (commit_pass result s d x ≡ (d, err e)))
          ⊎ ((c : PublisherCoordinator) × (signed : PaymentState) × (x ≡ (c, ok signed)))
    unfolding Keeps commit_pass
    pass_effect result s d (c, err e) k = inl (
      coordinator_failed e,
      ap
          (λ (c' : PublisherCoordinator).
            (record d { coordinator = c' }, err (coordinator_failed e)))
          k,
    )
    pass_effect result s d (c, ok signed) k = inr (c, signed, refl)

    status_effect :
        (now : ℕ) (result : AvailabilityResult) (s : PaymentSchedule)
        (d : AvailabilityPaymentDispatcher) (status : AvailabilityStatus)
        → let answer = dispatch_status sha256 ed25519_sign signer now result s d status in
          ((e : DispatchError) × (answer ≡ (d, err e))) ⊎ Dispatched now result s d status answer
    unfolding dispatch_status commit_pass commit_fail
    status_effect now result s d pass =
        elim (pass_effect result s d
          (create_and_sign_payment_state signer now result (next_cumulative s) (s.sequence + 1)
            d.coordinator)
          (create-Keeps now result (next_cumulative s) (s.sequence + 1) d.coordinator)) [
            | inl (e, h) ↦ inl (e, h)
            | inr (c, signed, h) ↦ inr (inl (c, signed, h, refl, ap (commit_pass result s d) h))
          ]
    status_effect now result s d fail =
        elim (Option-cases (
          build_and_sign_fail_record sha256 ed25519_sign now result s.escrow_contract_id
            (s.sequence + 1) d)) [
              | inl h ↦ inl (unregistered_provider, rw (h, commit_fail))
              | inr (rec, h) ↦ inr (inr (rec, h, refl, rw h))
            ]
    status_effect now result s d (other status) = inl (unknown_status, refl)

    -- What a dispatch does: nothing, with an error, or the one payment or the one failure record of a
    -- challenge that was not processed before.
    pub dispatch_effect :
        (now : ℕ) (result : AvailabilityResult) (d : AvailabilityPaymentDispatcher)
        → let answer = dispatch_availability_result sha256 ed25519_sign signer now result d in
          ((e : DispatchError) × (answer ≡ (d, err e)))
          ⊎ ((s : PaymentSchedule) × (lookup result.contract_id d.schedules ≡ some s)
              × (is_processed result.challenge_id s ≡ false)
              × (s.sequence ≢ 2 ^ 64 - 1)
              × Dispatched now result s d result.result answer)
    unfolding dispatch_availability_result dispatch_scheduled
    dispatch_effect now result d = elim (Result-cases (validate_result result)) [
      | inl (e, h) ↦ inl (e, rw (h, dispatch_availability_result))
      | inr (u, h) ↦ elim (Option-cases (lookup result.contract_id d.schedules)) [
        | inl l ↦ inl (schedule_not_found, rw (h, l, dispatch_availability_result))
        | inr (s, l) ↦ elim (Bool-cases (is_processed result.challenge_id s)) [
          | inl p ↦ inl (duplicate_challenge, rw (h, l, p, dispatch_availability_result))
          | inr p ↦ elim (Bool-cases (s.sequence == 2 ^ 64 - 1)) [
            | inl q ↦ inl (sequence_exhausted, rw (h, l, p, q, dispatch_availability_result))
            | inr q ↦
                let run : dispatch_availability_result sha256 ed25519_sign signer now result d
                    ≡ dispatch_status sha256 ed25519_sign signer now result s d result.result =
                  rw (h, l, p, q, dispatch_availability_result) in
                elim (status_effect now result s d result.result) [
                  | inl (e, k) ↦ inl (e, run ∙ k)
                  | inr x ↦ inr (
                    s,
                    l,
                    p,
                    ground (arith, q),
                    subst (Dispatched now result s d result.result) (sym run) x,
                  )
                ]
          ]
        ]
      ]
    ]
