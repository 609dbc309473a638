-- ===== src/Escrow/Evidence.antt =====
-- The evidence for slashing that a dispatch of dispatcher.go hands out.
use cipher.Prelude.{
  ℕ, ◌+◌, ◌-◌, ◌<◌, ◌^◌, ◌≡◌, refl, sym, subst, ◌∙◌, leb, leb→le, Bool-cases, inl, inr, some, ok,
  Bytes, length, All, arith, true, Bool, Result,
}
use cipher.Availability.Types.{AvailabilityResult}
use cipher.Escrow.Bindings.{escrow_string}
use cipher.Escrow.Payment.{StateSigner}
use cipher.Escrow.FailRecord.{FailRecord, verify_fail_streak}
use cipher.Escrow.Schedule.{
  DispatchError, PaymentSchedule, AvailabilityPaymentDispatcher, DispatchResult,
}
use cipher.Escrow.Dispatcher.{
  next_count, commit_pass, commit_fail, failed_schedule, dispatch_availability_result,
}
use cipher.Escrow.Outcomes.{dispatch_effect}
use cipher.Escrow.Streak.{verify_fail_streak-Runs}
use cipher.Escrow.Ledger.{IsKeyPair, IsSound, failed-IsSound, build_effect}
use cipher.Escrow.History.{Reachable}
use cipher.Escrow.Tally.{Tally, tally, after_fail}
use cipher.Escrow.Reached.{Reachable-AllSound}

module _ (sha256 : Bytes → Bytes) (ed25519_verify : Bytes → Bytes → Bytes → Bool)
    (key public_key : Bytes) where
  -- The records of a sound schedule verify as a streak if they name one address.
  streak-verifies :
      (k : ℕ) (t : Tally) (s : PaymentSchedule) (address : Bytes)
      → 0 < length s.fail_streak
      → IsSound sha256 ed25519_verify public_key k t s
      → All (λ (r : FailRecord). r.provider_eth_address ≡ address) s.fail_streak
      → verify_fail_streak sha256 ed25519_verify s.fail_streak public_key ≡ true
  streak-verifies k t s address z h same =
      verify_fail_streak-Runs sha256 ed25519_verify public_key (escrow_string s.escrow_contract_id)
        address (s.sequence + 1 - length s.fail_streak) s.fail_streak z
        (omega (arith, h.streak_size, h.counted, h.numbered, h.sequence_size)) h.streak_runs same

  failed-counted :
      (k : ℕ) (id : Bytes) (rec : FailRecord) (s : PaymentSchedule)
      → (failed_schedule k id rec s).consecutive_failures ≡ next_count s
  unfolding failed_schedule
  failed-counted k id rec s = refl

  -- What a failed result hands out, from the sound schedule that it leaves.
  evidence-verifies :
      (t : Tally) (result : AvailabilityResult) (s : PaymentSchedule)
      (d d' : AvailabilityPaymentDispatcher) (rec : FailRecord) (out : DispatchResult)
      (address : Bytes)
      → ◌≡◌ {A = AvailabilityPaymentDispatcher × Result DispatchError DispatchResult}
          (commit_fail result s d (some rec))
          (d', ok out)
      → 0 < d.failure_threshold
      → d.failure_threshold < 2 ^ 32
      → IsSound sha256 ed25519_verify public_key d.failure_threshold t
          (failed_schedule d.failure_threshold result.challenge_id rec s)
      → out.slash_eligible ≡ true
      → All (λ (r : FailRecord). r.provider_eth_address ≡ address) out.slash_evidence
      → (length out.slash_evidence ≡ d.failure_threshold)
        × (verify_fail_streak sha256 ed25519_verify out.slash_evidence public_key ≡ true)
  unfolding commit_fail
  evidence-verifies t result s d d' rec out address h z small sound eligible same =
      elim (Bool-cases (leb d.failure_threshold (next_count s))) [
        | inl b ↦
            let s' = failed_schedule d.failure_threshold result.challenge_id rec s in
            let handed : s'.fail_streak ≡ out.slash_evidence = ground (arith, h, b) in
            let size : length s'.fail_streak ≡ d.failure_threshold = omega (
              arith,
              leb→le _ _ b,
              sound.streak_size,
              sound.in_a_row,
              small,
              failed-counted d.failure_threshold result.challenge_id rec s,
            ) in
            let same' =
              subst (All (λ (r : FailRecord). r.provider_eth_address ≡ address)) (sym handed)
                same in
            rw (← handed) (
              size,
              streak-verifies d.failure_threshold t s' address (omega (arith, size)) sound same',
            )
        | inr b ↦ absurd (ground (arith, h, b, eligible))
      ]

  module _ (ed25519_sign : Bytes → Bytes → Bytes) (signer : StateSigner)
      (keys : IsKeyPair ed25519_sign ed25519_verify key public_key) where
    -- In every reachable dispatcher: a dispatch whose result is eligible for slashing, and whose failure
    -- records all name one address of the provider, carries as many of them as the threshold says,
    -- and VerifyFailStreak accepts them under the publisher's key.
    pub dispatch-slash_evidence :
        (now : ℕ) (result : AvailabilityResult) (d d' : AvailabilityPaymentDispatcher)
        (out : DispatchResult) (address : Bytes)
        → Reachable sha256 ed25519_sign signer key d
        → dispatch_availability_result sha256 ed25519_sign signer now result d ≡ (d', ok out)
        → out.slash_eligible ≡ true
        → All (λ (r : FailRecord). r.provider_eth_address ≡ address) out.slash_evidence
        → (length out.slash_evidence ≡ d.failure_threshold)
          × (verify_fail_streak sha256 ed25519_verify out.slash_evidence public_key ≡ true)
    unfolding commit_pass
    dispatch-slash_evidence now result d d' out address r h eligible same =
        let results = λ (id : Bytes). tally sha256 ed25519_sign signer key id r in
        let sound =
          Reachable-AllSound sha256 ed25519_verify key public_key ed25519_sign signer keys r in
        elim (dispatch_effect signer sha256 ed25519_sign now result d) [
          | inl (e, run) ↦ absurd (cc)
          | inr (s, l, p, q, inl (c, signed, made, its, run)) ↦
              absurd (ground (arith, sym h ∙ run, eligible))
          | inr (s, l, p, q, inr (rec, made, its, run)) ↦
              let its_keys =
                subst (λ k. IsKeyPair ed25519_sign ed25519_verify k public_key)
                  (sym sound.signs_with) keys in
              let (v, e, n, i, a) =
                build_effect sha256 ed25519_sign ed25519_verify now result _ _ d rec public_key
                  its_keys made in
              evidence-verifies (after_fail result.challenge_id (results result.contract_id)) result
                s d d' rec out address (sym run ∙ h) sound.some_failure sound.threshold_size
                (failed-IsSound sha256 ed25519_verify public_key _ (results result.contract_id) s _
                  rec sound.threshold_size q v e n i (sound.each _ s l))
                eligible same
        ]
