-- ===== src/Escrow/Reached.antt =====
-- Every dispatcher of dispatcher.go that a history reaches: its schedules, and the evidence it gives.
use cipher.Prelude.{
  ℕ, ◌==◌, ◌^◌, ◌<◌, ◌≡◌, refl, subst, not, Bool-cases, inl, inr, Result-cases, Result, none, some,
  ok, List, [], ◌∷◌, Bytes, length, All, arith, lookup, Bool,
}
use cipher.Escrow.Payment.{StateSigner}
use cipher.Escrow.Coordinator.{PublisherCoordinator}
use cipher.Escrow.Schedule.{
  DispatchError, PaymentSchedule, AvailabilityPaymentDispatcher, with_failure_threshold,
  apply_options, new_availability_payment_dispatcher,
}
use cipher.Escrow.Ledger.{IsKeyPair, IsSound}
use cipher.Escrow.History.{Step, register, dispatch, coordinate, Run, stay, more, Reachable, reach}
use cipher.Escrow.Tally.{Tally, no_results, step_tally, run_tally, tally}
use cipher.Escrow.Promises.{AllSound, coordinate-AllSound, register-AllSound, dispatch-AllSound}

ok_injective :
    (a b : AvailabilityPaymentDispatcher)
    → ◌≡◌ {A = Result DispatchError AvailabilityPaymentDispatcher} (ok a) (ok b)
    → a ≡ b
ok_injective a b e = cc

-- A new dispatcher, with some threshold.
record IsFresh (key : Bytes) (d : AvailabilityPaymentDispatcher) : Type 0 where
  no_schedules : d.schedules ≡ []
  signs_with : d.signer_key ≡ key
  some_failure : 0 < d.failure_threshold
  threshold_size : d.failure_threshold < 2 ^ 32

option-IsFresh :
    (key : Bytes) (k : ℕ) (d d' : AvailabilityPaymentDispatcher)
    → k < 2 ^ 32
    → IsFresh key d
    → with_failure_threshold k d ≡ ok d'
    → IsFresh key d'
unfolding with_failure_threshold
option-IsFresh key k d d' b h e = ground (arith, b)

options-IsFresh :
    (key : Bytes) (opts : List ℕ) (d d' : AvailabilityPaymentDispatcher)
    → All (λ k. k < 2 ^ 32) opts
    → IsFresh key d
    → apply_options opts d ≡ ok d'
    → IsFresh key d'
unfolding apply_options
options-IsFresh key [] d d' b h e = subst (IsFresh key) (ok_injective d d' e) h
options-IsFresh key (k ∷ opts) d d' b h e = elim (Result-cases (with_failure_threshold k d)) [
  | inl (x, r) ↦ absurd (ground (arith, e, r))
  | inr (d₁, r) ↦
      options-IsFresh key opts d₁ d' b.1 (option-IsFresh key k d d₁ b.0 h r)
        (rw (r, apply_options) at e)
]

new-IsFresh :
    (key : Bytes) (c : PublisherCoordinator) (opts : List ℕ) (d : AvailabilityPaymentDispatcher)
    → All (λ k. k < 2 ^ 32) opts
    → new_availability_payment_dispatcher (some c) key opts ≡ ok d
    → IsFresh key d
unfolding new_availability_payment_dispatcher
new-IsFresh key c opts d b e = elim (Bool-cases (not (length key == 64))) [
  | inl n ↦ absurd (ground (arith, e, n))
  | inr n ↦
      options-IsFresh key opts _ d b
        (record {
          no_schedules = refl;
          signs_with = refl;
          some_failure = omega arith;
          threshold_size = omega arith;
        })
        (rw (n, new_availability_payment_dispatcher) at e)
]

module _ (sha256 : Bytes → Bytes) (ed25519_verify : Bytes → Bytes → Bytes → Bool)
    (key public_key : Bytes) where
  fresh-AllSound :
      (d : AvailabilityPaymentDispatcher)
      → IsFresh key d
      → AllSound sha256 ed25519_verify key public_key (λ id. no_results) d
  unfolding lookup
  fresh-AllSound d h = record {
    signs_with = h.signs_with;
    some_failure = h.some_failure;
    threshold_size = h.threshold_size;
    absent = λ id none_found. refl;
    each = λ id s found.
        let none_found : lookup id d.schedules ≡ none = rw h.no_schedules in
        absurd (ground (arith, found, none_found));
  }

  module _ (ed25519_sign : Bytes → Bytes → Bytes) (signer : StateSigner)
      (keys : IsKeyPair ed25519_sign ed25519_verify key public_key) where
    Step-AllSound :
        (t : Bytes → Tally) {d d' : AvailabilityPaymentDispatcher}
        (step : Step sha256 ed25519_sign signer d d')
        → AllSound sha256 ed25519_verify key public_key t d
        → AllSound sha256 ed25519_verify key public_key
            (λ id. step_tally sha256 ed25519_sign signer id step (t id))
            d'
    unfolding step_tally
    Step-AllSound t (register id escrow per_pass max b d) h =
        register-AllSound sha256 ed25519_verify key public_key t id escrow per_pass max d b h
    Step-AllSound t (dispatch now result d) h =
        dispatch-AllSound sha256 ed25519_verify key public_key ed25519_sign signer keys t now result
          d h
    Step-AllSound t (coordinate c d) h =
        coordinate-AllSound sha256 ed25519_verify key public_key t c d h

    Run-AllSound :
        {d d' : AvailabilityPaymentDispatcher} (r : Run sha256 ed25519_sign signer d d')
        → AllSound sha256 ed25519_verify key public_key (λ id. no_results) d
        → AllSound sha256 ed25519_verify key public_key
            (λ id. run_tally sha256 ed25519_sign signer id r)
            d'
    unfolding run_tally
    Run-AllSound (stay d) h = h
    Run-AllSound (more d d' d'' r s) h = Step-AllSound _ s (Run-AllSound r h)

    pub Reachable-AllSound :
        {d : AvailabilityPaymentDispatcher} (r : Reachable sha256 ed25519_sign signer key d)
        → AllSound sha256 ed25519_verify key public_key
            (λ id. tally sha256 ed25519_sign signer key id r)
            d
    unfolding tally
    Reachable-AllSound (reach c opts d d' b made r) =
        Run-AllSound r (fresh-AllSound d (new-IsFresh key c opts d b made))

    -- After any sequence of registrations and dispatches, with any clocks, results and states of the
    -- shared coordinator in between, every payment schedule accounts for the results that its
    -- contract had dispatched: its number is their number, the cumulative payment is the price of
    -- those that passed, at most the maximum, the consecutive failures are those since the last
    -- pass, as far as a uint32 counts, and the streak holds the signed records of just their
    -- challenges, the latest of them and as many as the threshold at most, numbered without a gap
    -- up to the schedule's number.
    pub Reachable-IsSound :
        {d : AvailabilityPaymentDispatcher} (id : Bytes) (s : PaymentSchedule)
        (r : Reachable sha256 ed25519_sign signer key d)
        → lookup id d.schedules ≡ some s
        → IsSound sha256 ed25519_verify public_key d.failure_threshold
            (tally sha256 ed25519_sign signer key id r)
            s
    Reachable-IsSound id s r found = (Reachable-AllSound r).each id s found
