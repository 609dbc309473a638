-- ===== src/Escrow/Repeats.antt =====
-- Failed and repeated dispatches of dispatcher.go.
use cipher.Prelude.{
  ℕ, ◌≡◌, ◌⊎◌, refl, sym, ap, ◌∙◌, Bool-cases, inl, inr, some, ok, err, Bytes, bytes_eq,
  bytes_eq→eq, arith, lookup, insert, lookup-insert, lookup-insert_self, true,
}
use cipher.Availability.Types.{AvailabilityResult}
use cipher.Escrow.Payment.{StateSigner}
use cipher.Escrow.Coordinator.{PublisherCoordinator}
use cipher.Escrow.Schedule.{
  DispatchError, duplicate_challenge, PaymentSchedule, AvailabilityPaymentDispatcher,
  DispatchResult, registered,
}
use cipher.Escrow.Dispatcher.{
  validate_result, is_processed, commit_pass, commit_fail, failed_schedule, dispatch_scheduled,
  dispatch_availability_result,
}
use cipher.Escrow.Outcomes.{dispatch_effect}
use cipher.Escrow.History.{Step, register, dispatch, coordinate, Run, stay, more, register_effect}

-- The contract has a schedule that has processed the challenge.
IsDone : Bytes → Bytes → AvailabilityPaymentDispatcher → Type 0
IsDone id challenge d =
    (s : PaymentSchedule) × (lookup id d.schedules ≡ some s) × (is_processed challenge s ≡ true)

-- A schedule that takes the place of one, and keeps its challenges, keeps what is done.
replace-IsDone :
    (id challenge k : Bytes) (v : PaymentSchedule) (c : PublisherCoordinator)
    (d : AvailabilityPaymentDispatcher)
    → ((s : PaymentSchedule)
        → lookup k d.schedules ≡ some s
        → is_processed challenge s ≡ true
        → is_processed challenge v ≡ true)
    → IsDone id challenge d
    → IsDone id challenge (record d { coordinator = c; schedules = insert k v d.schedules })
unfolding IsDone
replace-IsDone id challenge k v c d keep (t, l, p) = elim (Bool-cases (bytes_eq k id)) [
  | inl e ↦
      let same = bytes_eq→eq k id e in
      (v, rw (← same) (lookup-insert_self k v d.schedules), keep t (rw same l) p)
  | inr e ↦ (t, ground (arith, lookup-insert k id v d.schedules, l, e), p)
]

-- A mark set in a schedule, with those before it.
mark-is_processed :
    (challenge other : Bytes) (s v : PaymentSchedule)
    → v.processed_challenges ≡ insert other true s.processed_challenges
    → is_processed challenge s ≡ true
    → is_processed challenge v ≡ true
unfolding is_processed
mark-is_processed challenge other s v e h =
    rw e (ground (arith, lookup-insert other challenge true s.processed_challenges, h))

mark-is_processed_self :
    (other : Bytes) (s v : PaymentSchedule)
    → v.processed_challenges ≡ insert other true s.processed_challenges
    → is_processed other v ≡ true
unfolding is_processed
mark-is_processed_self other s v e =
    rw e (ground (arith, lookup-insert_self other true s.processed_challenges))

module _ (sha256 : Bytes → Bytes) (ed25519_sign : Bytes → Bytes → Bytes)
    (signer : StateSigner) where
  -- A dispatch that fails leaves the dispatcher, its schedules and its coordinator as they were.
  pub dispatch_refused :
      (now : ℕ) (result : AvailabilityResult) (d d' : AvailabilityPaymentDispatcher)
      (e : DispatchError)
      → dispatch_availability_result sha256 ed25519_sign signer now result d ≡ (d', err e)
      → d' ≡ d
  unfolding commit_pass commit_fail
  dispatch_refused now result d d' e h =
      elim (dispatch_effect signer sha256 ed25519_sign now result d) [
        | inl (e', run) ↦ cc
        | inr (s, l, p, q, inl (c, signed, made, its, run)) ↦ absurd (cc)
        | inr (s, l, p, q, inr (rec, made, its, run)) ↦ absurd (cc)
      ]

  -- What a dispatch does to the schedules: nothing, or it marks the challenge in the one it found.
  commits :
      (now : ℕ) (result : AvailabilityResult) (d : AvailabilityPaymentDispatcher)
      → let answer = dispatch_availability_result sha256 ed25519_sign signer now result d in
        ((e : DispatchError) × (answer ≡ (d, err e)))
        ⊎ ((s v : PaymentSchedule) × (c : PublisherCoordinator) × (lookup result.contract_id
                d.schedules
              ≡ some s)
            × (v.processed_challenges ≡ insert result.challenge_id true s.processed_challenges)
            × (answer.0 ≡ (record d {
              coordinator = c;
              schedules = insert result.contract_id v d.schedules;
            })))
  unfolding commit_pass commit_fail failed_schedule
  commits now result d = elim (dispatch_effect signer sha256 ed25519_sign now result d) [
    | inl x ↦ inl x
    | inr (s, l, p, q, inl (c, signed, made, its, run)) ↦ inr (s, _, c, l, refl, ap (λ x. x.0) run)
    | inr (s, l, p, q, inr (rec, made, its, run)) ↦ inr (
      s,
      failed_schedule d.failure_threshold result.challenge_id rec s,
      d.coordinator,
      l,
      refl,
      ap (λ x. x.0) run,
    )
  ]

  Step-IsDone :
      (id challenge : Bytes) {d d' : AvailabilityPaymentDispatcher}
      → Step sha256 ed25519_sign signer d d'
      → IsDone id challenge d
      → IsDone id challenge d'
  unfolding IsDone registered
  Step-IsDone id challenge (register k escrow per_pass max b d) done =
      elim (register_effect k escrow per_pass max d) [
        | inl (c, e) ↦ rw e done
        | inr (c, p, q, l, e) ↦
            rw e (replace-IsDone id challenge k _ c d (λ s found. absurd (cc)) done)
      ]
  Step-IsDone id challenge (dispatch now result d) done = elim (commits now result d) [
    | inl (x, e) ↦ rw e done
    | inr (s, v, c, l, marks, e) ↦ rw e (
        replace-IsDone id challenge result.contract_id v c d
          (λ s' found h.
            mark-is_processed challenge result.challenge_id s v marks (ground (arith, l, found, h)))
          done)
  ]
  Step-IsDone id challenge (coordinate c d) done = done

  Run-IsDone :
      (id challenge : Bytes) {d d' : AvailabilityPaymentDispatcher}
      → Run sha256 ed25519_sign signer d d'
      → IsDone id challenge d
      → IsDone id challenge d'
  Run-IsDone id challenge (stay d) done = done
  Run-IsDone id challenge (more d d' d'' r s) done =
      Step-IsDone id challenge s (Run-IsDone id challenge r done)

  success-IsDone :
      (now : ℕ) (result : AvailabilityResult) (d d' : AvailabilityPaymentDispatcher)
      (out : DispatchResult)
      → dispatch_availability_result sha256 ed25519_sign signer now result d ≡ (d', ok out)
      → IsDone result.contract_id result.challenge_id d'
  unfolding IsDone
  success-IsDone now result d d' out h = elim (commits now result d) [
    | inl (e, run) ↦ absurd (cc)
    | inr (s, v, c, l, marks, run) ↦
        let at_end : d'
            ≡ (record d { coordinator = c; schedules = insert result.contract_id v d.schedules }) =
          sym (ap (λ x. x.0) h) ∙ run in
        (
          v,
          rw at_end (lookup-insert_self result.contract_id v d.schedules),
          mark-is_processed_self result.challenge_id s v marks,
        )
  ]

  -- A challenge is paid or failed once: after a result is dispatched, and any registrations,
  -- dispatches and changes of the coordinator, every valid result of that contract and challenge is
  -- refused as a duplicate, and the dispatcher stays as it is.
  pub dispatch_once :
      (now now' : ℕ) (result again : AvailabilityResult) (d d' d'' : AvailabilityPaymentDispatcher)
      (out : DispatchResult)
      → dispatch_availability_result sha256 ed25519_sign signer now result d ≡ (d', ok out)
      → Run sha256 ed25519_sign signer d' d''
      → again.contract_id ≡ result.contract_id
      → again.challenge_id ≡ result.challenge_id
      → validate_result again ≡ ok tt
      → dispatch_availability_result sha256 ed25519_sign signer now' again d''
        ≡ (d'', err duplicate_challenge)
  unfolding dispatch_availability_result dispatch_scheduled IsDone
  dispatch_once now now' result again d d' d'' out h r c e v =
      let (s, l, p) =
        Run-IsDone result.contract_id result.challenge_id r
          (success-IsDone now result d d' out h) in
      rw (v, c, l, e, p, dispatch_availability_result) refl
