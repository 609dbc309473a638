-- ===== src/Escrow/Settling.antt =====
-- SubmitSettlementOnChain of dispatcher.go: its calls of the chain, on every branch.
use cipher.Prelude.{
  ℕ, ◌≡◌, ◌≢◌, ◌⊎◌, refl, sym, subst, subst₂, ap, ◌∙◌, Bool-cases, inl, inr, List, [], some, ok,
  err, Bytes, arith, true, false, Bool, Result, Result-cases, Option-cases, lookup,
}
use cipher.Escrow.Bindings.{escrow_string}
use cipher.Escrow.Payment.{
  PaymentError, PaymentState, Adapter, ChainCall, submitted, settled, submit_payment_state,
}
use cipher.Escrow.Coordinator.{
  CoordinatorError, no_settler, payment_failed, submit_failed, settle_failed, PublisherCoordinator,
  redeemable, settle_after, submit_latest_payment_state_on_chain, settle_contract_on_chain,
}
use cipher.Escrow.Schedule.{
  DispatchError, coordinator_failed, schedule_not_found, PaymentSchedule,
  AvailabilityPaymentDispatcher,
}
use cipher.Escrow.Dispatcher.{settle_or_submit, submit_settlement_on_chain}
use cipher.Escrow.Redeeming.{
  Redeems, submitted_only, not_submitted, not_settled, both, IsSigned, IsRedeemable, Outcome,
  submit_effect, redeemable_effect,
}

module _ (adapter : Adapter) (now : ℕ) (key : Bytes) (c : PublisherCoordinator) where
  submit_latest-Outcome :
      Outcome CoordinatorError adapter now key c false
        (submit_latest_payment_state_on_chain adapter now key c)
  unfolding submit_latest_payment_state_on_chain
  submit_latest-Outcome = elim (Result-cases (redeemable now key c)) [
    | inl (e, h) ↦ inl (e, rw (h, submit_latest_payment_state_on_chain) refl)
    | inr (p, h) ↦ elim (submit_effect adapter key p) [
      | inl (e, k) ↦ inl (payment_failed e, rw (h, k, submit_latest_payment_state_on_chain) refl)
      | inr (signed, k) ↦ inr (
        p,
        redeemable_effect now key c p h,
        signed,
        elim (Result-cases (adapter (submitted key p))) [
          | inl (e, a) ↦
              not_submitted e (payment_failed e) a
                (rw (h, k, submit_latest_payment_state_on_chain) refl)
                (rw (h, k, a, submit_latest_payment_state_on_chain) refl)
          | inr (u, a) ↦
              submitted_only refl a (rw (h, k, submit_latest_payment_state_on_chain) refl)
                (rw (h, k, a, submit_latest_payment_state_on_chain) refl)
        ],
      )
    ]
  ]

  settle_run :
      (p : PaymentState)
      → c.has_settler ≡ true
      → redeemable now key c ≡ ok p
      → settle_contract_on_chain adapter now key c
        ≡ settle_after adapter key p (submit_payment_state (some adapter) key p)
  unfolding settle_contract_on_chain
  settle_run p g h = ground (arith, g, h)

  settle_refused :
      (e : CoordinatorError)
      → c.has_settler ≡ true
      → redeemable now key c ≡ err e
      → settle_contract_on_chain adapter now key c ≡ ([], err e)
  unfolding settle_contract_on_chain
  settle_refused e g h = ground (arith, g, h)

  settle-Outcome :
      c.has_settler ≡ true
      → Outcome CoordinatorError adapter now key c true (settle_contract_on_chain adapter now key c)
  settle-Outcome g = elim (Result-cases (redeemable now key c)) [
    | inl (e, h) ↦ inl (e, settle_refused e g h)
    | inr (p, h) ↦ elim (submit_effect adapter key p) [
      | inl (e, k) ↦ inl (submit_failed e, rw (settle_run p g h, k) refl)
      | inr (signed, k) ↦ inr (
        p,
        redeemable_effect now key c p h,
        signed,
        rw (settle_run p g h, k)
            (elim (Result-cases (adapter (submitted key p))) [
              | inl (e, a) ↦ not_submitted e (submit_failed e) a (rw a refl) (rw a refl)
              | inr (u, a) ↦ elim (Result-cases (adapter (settled key p))) [
                | inl (e, b) ↦ not_settled e (settle_failed e) refl a b (rw a refl) (rw (a, b) refl)
                | inr (u', b) ↦ both refl a b (rw a refl) (rw (a, b) refl)
              ]
            ]),
      )
    ]
  ]

  -- An answer that does not miss the settler stays.
  keeps_answer :
      (x : List ChainCall × Result CoordinatorError (Unit {0}))
      → x.1 ≢ err no_settler
      → settle_or_submit adapter now key c x ≡ x
  unfolding settle_or_submit
  keeps_answer (calls, err no_settler) h = absurd (h refl)
  keeps_answer (calls, r) h = refl

  redeemable-has_reason : redeemable now key c ≢ err no_settler
  unfolding redeemable
  redeemable-has_reason h = ground (arith, h)

  settle_after-has_settler :
      (p : PaymentState) (x : List ChainCall × Result PaymentError (Unit {0}))
      → (settle_after adapter key p x).1 ≢ err no_settler
  settle_after-has_settler p (calls, err e) h = cc
  settle_after-has_settler p (calls, ok u) h = elim (Result-cases (adapter (settled key p))) [
    | inl (e, a) ↦ (let h' = rw a at h in cc)
    | inr (u', a) ↦ (let h' = rw a at h in cc)
  ]

  settle-has_settler :
      c.has_settler ≡ true → (settle_contract_on_chain adapter now key c).1 ≢ err no_settler
  settle-has_settler g h = elim (Result-cases (redeemable now key c)) [
    | inl (e, k) ↦
        let e≡ : e ≡ no_settler = cc (ap (λ x. x.1) (settle_refused e g k), h) in
        redeemable-has_reason (rw e≡ at k)
    | inr (p, k) ↦ settle_after-has_settler p _ (ap (λ x. x.1) (sym (settle_run p g k)) ∙ h)
  ]

  -- With the fallback.
  fallback-Outcome :
      Outcome CoordinatorError adapter now key c c.has_settler
        (settle_or_submit adapter now key c (settle_contract_on_chain adapter now key c))
  unfolding settle_contract_on_chain settle_or_submit submit_latest_payment_state_on_chain
  fallback-Outcome = elim (Bool-cases c.has_settler) [
    | inl g ↦
        let P = λ (b : Bool) (x : List ChainCall × Result CoordinatorError (Unit {0})).
          Outcome CoordinatorError adapter now key c b x in
        subst₂ P (sym g)
          (sym (keeps_answer (settle_contract_on_chain adapter now key c) (settle-has_settler g)))
          (settle-Outcome g)
    | inr g ↦
        let run : settle_contract_on_chain adapter now key c ≡ ([], err no_settler) =
          ground (arith, g) in
        rw (run, settle_or_submit)
          (subst
            (λ b.
              Outcome CoordinatorError adapter now key c b
                (submit_latest_payment_state_on_chain adapter now key c))
            (sym g) submit_latest-Outcome)
  ]

-- The dispatcher's error for the coordinator's.
abbrev as_dispatch : Result CoordinatorError (Unit {0}) → Result DispatchError (Unit {0})
as_dispatch (ok u) = ok u
as_dispatch (err e) = err (coordinator_failed e)

Redeems-as_dispatch :
    (adapter : Adapter) (key : Bytes) (p : PaymentState) (given : Bool) (calls : List ChainCall)
    (r : Result CoordinatorError (Unit {0}))
    → Redeems CoordinatorError adapter key p given calls r
    → Redeems DispatchError adapter key p given calls (as_dispatch r)
Redeems-as_dispatch adapter key p given calls r (submitted_only g a c e) =
    submitted_only g a c (ap as_dispatch e)
Redeems-as_dispatch adapter key p given calls r (not_submitted x f a c e) =
    not_submitted x (coordinator_failed f) a c (ap as_dispatch e)
Redeems-as_dispatch adapter key p given calls r (not_settled x f g a b c e) =
    not_settled x (coordinator_failed f) g a b c (ap as_dispatch e)
Redeems-as_dispatch adapter key p given calls r (both g a b c e) = both g a b c (ap as_dispatch e)

settlement_run :
    (adapter : Adapter) (now : ℕ) (contract_id : Bytes) (d : AvailabilityPaymentDispatcher)
    (s : PaymentSchedule)
    → lookup contract_id d.schedules ≡ some s
    → let key = escrow_string s.escrow_contract_id in
      let x =
        settle_or_submit adapter now key d.coordinator
          (settle_contract_on_chain adapter now key d.coordinator) in
      submit_settlement_on_chain adapter now contract_id d ≡ (x.0, as_dispatch x.1)
unfolding submit_settlement_on_chain
settlement_run adapter now contract_id d s h = ground (arith, h)

-- SubmitSettlementOnChain either makes no call of the chain and fails, or has found the contract's
-- schedule and the latest payment state of its escrow, which is signed and has not expired, and
-- submits that state. It goes on to settle it exactly if the submission is accepted and a settler is
-- set, and it succeeds exactly if every call that it makes is accepted.
pub submit_settlement_outcome :
    (adapter : Adapter) (now : ℕ) (contract_id : Bytes) (d : AvailabilityPaymentDispatcher)
    → let x = submit_settlement_on_chain adapter now contract_id d in
      ((e : DispatchError) × (x ≡ ([], err e)))
      ⊎ ((s : PaymentSchedule) × (lookup contract_id d.schedules ≡ some s)
          × (p : PaymentState) × IsRedeemable now
              (escrow_string s.escrow_contract_id)
              d.coordinator
              p
          × IsSigned (escrow_string s.escrow_contract_id) p
          × Redeems DispatchError adapter
              (escrow_string s.escrow_contract_id)
              p
              d.coordinator.has_settler
              x.0
              x.1)
unfolding submit_settlement_on_chain
submit_settlement_outcome adapter now contract_id d =
    elim (Option-cases (lookup contract_id d.schedules)) [
      | inl h ↦ inl (schedule_not_found, rw (h, submit_settlement_on_chain) refl)
      | inr (s, h) ↦
          let key = escrow_string s.escrow_contract_id in
          let run = settlement_run adapter now contract_id d s h in
          elim (fallback-Outcome adapter now key d.coordinator) [
            | inl (e, k) ↦ inl (coordinator_failed e, run ∙ ap (λ x. (x.0, as_dispatch x.1)) k)
            | inr (p, ready, signed, made) ↦ inr (
              s,
              h,
              p,
              ready,
              signed,
              rw run (Redeems-as_dispatch adapter key p d.coordinator.has_settler _ _ made),
            )
          ]
    ]
