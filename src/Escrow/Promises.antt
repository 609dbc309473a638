-- ===== src/Escrow/Promises.antt =====
-- What the schedules of every reachable dispatcher of dispatcher.go keep, and what a dispatch promises.
use cipher.Prelude.{
  ℕ, ◌^◌, ◌<◌, ◌≡◌, sym, subst, Bool, inl, inr, some, Bytes, arith, lookup, insert,
  lookup-insert_cases, lookup-insert, subst₂, none, bytes_eq, bytes_eq_refl, false, Bool-cases,
  refl, ◌∙◌, ◌-◌, if◌then◌else◌,
}
use cipher.Availability.Types.{AvailabilityResult}
use cipher.Escrow.Bindings.{EscrowContractId}
use cipher.Escrow.Payment.{StateSigner}
use cipher.Escrow.Coordinator.{PublisherCoordinator}
use cipher.Escrow.Schedule.{
  PaymentSchedule, AvailabilityPaymentDispatcher, register_contract_schedule, registered,
}
use cipher.Escrow.Dispatcher.{commit_pass, commit_fail, dispatch_availability_result}
use cipher.Escrow.Outcomes.{dispatch_effect}
use cipher.Escrow.Ledger.{IsKeyPair, IsSound, passed-IsSound, failed-IsSound, build_effect}
use cipher.Escrow.History.{register_effect}
use cipher.Escrow.Tally.{Tally, no_results, recorded, counted_for}
use cipher.Escrow.Recent.{drop_nil}

module _ (sha256 : Bytes → Bytes) (ed25519_verify : Bytes → Bytes → Bytes → Bool)
    (key public_key : Bytes) where
  -- A dispatcher of which the results `t` are dispatched, contract by contract.
  pub record AllSound (t : Bytes → Tally) (d : AvailabilityPaymentDispatcher) : Type 0 where
    pub signs_with : d.signer_key ≡ key
    pub some_failure : 0 < d.failure_threshold
    pub threshold_size : d.failure_threshold < 2 ^ 32
    pub absent : (id : Bytes) → lookup id d.schedules ≡ none → t id ≡ no_results
    pub each :
        (id : Bytes) (s : PaymentSchedule)
        → lookup id d.schedules ≡ some s
        → IsSound sha256 ed25519_verify public_key d.failure_threshold (t id) s

  pub coordinate-AllSound :
      (t : Bytes → Tally) (c : PublisherCoordinator) (d : AvailabilityPaymentDispatcher)
      → AllSound t d
      → AllSound t (record d { coordinator = c })
  coordinate-AllSound t c d h = record {
    signs_with = h.signs_with;
    some_failure = h.some_failure;
    threshold_size = h.threshold_size;
    absent = h.absent;
    each = h.each;
  }

  insert-AllSound :
      (t t' : Bytes → Tally) (c : PublisherCoordinator) (k : Bytes) (v : PaymentSchedule)
      (d : AvailabilityPaymentDispatcher)
      → AllSound t d
      → ((id : Bytes) → bytes_eq k id ≡ false → t' id ≡ t id)
      → IsSound sha256 ed25519_verify public_key d.failure_threshold (t' k) v
      → AllSound t' (record d { coordinator = c; schedules = insert k v d.schedules })
  insert-AllSound t t' c k v d h others sound = record {
    signs_with = h.signs_with;
    some_failure = h.some_failure;
    threshold_size = h.threshold_size;
    absent = λ id none_found. elim (Bool-cases (bytes_eq k id)) [
      | inl same ↦ absurd (ground (arith, none_found, lookup-insert k id v d.schedules, same))
      | inr other ↦
          others id other
          ∙ h.absent id (ground (arith, none_found, lookup-insert k id v d.schedules, other))
    ];
    each = λ id s found. elim (lookup-insert_cases k id v s d.schedules found) [
      | inl (same, e) ↦
          subst₂ (λ i s. IsSound sha256 ed25519_verify public_key d.failure_threshold (t' i) s) same
            e sound
      | inr (other, e) ↦ rw (others id other) (h.each id s e)
    ];
  }

  pub register-AllSound :
      (t : Bytes → Tally) (id : Bytes) (escrow : EscrowContractId) (per_pass max : ℕ)
      (d : AvailabilityPaymentDispatcher)
      → max < 2 ^ 64
      → AllSound t d
      → AllSound t (register_contract_schedule id escrow per_pass max d).0
  unfolding registered
  register-AllSound t id escrow per_pass max d b h =
      elim (register_effect id escrow per_pass max d) [
        | inl (c, e) ↦ subst (AllSound t) (sym e) (coordinate-AllSound t c d h)
        | inr (c, p, q, l, e) ↦ subst (AllSound t) (sym e) (
            insert-AllSound t t c id _ d h (λ j other. refl)
              (rw (h.absent id l) (record {
                positive = p;
                affordable = q;
                max_size = b;
                sequence_size = omega arith;
                numbered = refl;
                counted = omega arith;
                paid = omega arith;
                in_a_row = omega arith;
                streak_size = omega arith;
                streak_challenges = sym (drop_nil (0 - d.failure_threshold));
                streak_runs = tt;
              })))
      ]

  -- A dispatch counts for its own contract only.
  counted_for_other :
      (id : Bytes) (result : AvailabilityResult) (t : Tally)
      → bytes_eq result.contract_id id ≡ false
      → (if bytes_eq result.contract_id id then recorded result.result result.challenge_id t else t)
        ≡ t
  counted_for_other id result t e = rw e

  module _ (ed25519_sign : Bytes → Bytes → Bytes) (signer : StateSigner)
      (keys : IsKeyPair ed25519_sign ed25519_verify key public_key) where
    pub dispatch-AllSound :
        (t : Bytes → Tally) (now : ℕ) (result : AvailabilityResult)
        (d : AvailabilityPaymentDispatcher)
        → AllSound t d
        → let answer = dispatch_availability_result sha256 ed25519_sign signer now result d in
          AllSound (λ id. counted_for id result answer.1 (t id)) answer.0
    unfolding commit_pass commit_fail
    dispatch-AllSound t now result d h =
        elim (dispatch_effect signer sha256 ed25519_sign now result d) [
          | inl (e, run) ↦ rw run h
          | inr (s, l, p, q, inl (c, signed, made, its, run)) ↦ rw run (
              insert-AllSound t _ c _ _ d h (λ id other. counted_for_other id result (t id) other)
                (rw (bytes_eq_refl result.contract_id, its)
                  (passed-IsSound sha256 ed25519_verify public_key _ (t result.contract_id) s _ q
                    (h.each _ s l))))
          | inr (s, l, p, q, inr (rec, made, its, run)) ↦
              let its_keys =
                subst (λ k. IsKeyPair ed25519_sign ed25519_verify k public_key) (sym h.signs_with)
                  keys in
              let (v, e, n, i, a) =
                build_effect sha256 ed25519_sign ed25519_verify now result _ _ d rec public_key
                  its_keys made in
              rw run (
                insert-AllSound t _ d.coordinator _ _ d h
                  (λ id other. counted_for_other id result (t id) other)
                  (rw (bytes_eq_refl result.contract_id, its)
                    (failed-IsSound sha256 ed25519_verify public_key _ (t result.contract_id) s _
                      rec h.threshold_size q v e n i (h.each _ s l))))
        ]
