-- ===== src/Escrow/Ledger.antt =====
-- What holds of a payment schedule of dispatcher.go whatever is dispatched.
use Prim.Native.Nat.{min}
use cipher.Prelude.{
  ℕ, ◌+◌, ◌*◌, ◌-◌, ◌^◌, ◌<◌, ◌≤◌, ◌≡◌, ◌≢◌, refl, sym, ap, subst, ◌∙◌, true, Bool, inl, inr, some,
  Option-cases, List, [], ◌∷◌, ◌++◌, Bytes, length, length-append, arith,
}
use cipher.Availability.Types.{AvailabilityResult}
use cipher.Escrow.Bindings.{escrow_string}
use cipher.Escrow.Coordinator.{provider_address_for}
use cipher.Escrow.FailRecord.{
  FailRecord, sign_fail_record, verify_fail_record, build_fail_record_payload,
}
use cipher.Escrow.Schedule.{PaymentSchedule, AvailabilityPaymentDispatcher}
use cipher.Escrow.Dispatcher.{
  next_cumulative, next_count, keep_recent, failed_schedule, build_and_sign_fail_record,
}
use cipher.Escrow.Tally.{Tally, after_pass, after_fail}
use cipher.Escrow.Recent.{challenges, recent, challenges-add, drop_nil}
use cipher.Escrow.Streak.{Runs, Runs-append, Runs-keep_recent, length-keep_recent}

-- Documented of crypto/ed25519: a signature has 64 bytes and verifies under the key's public half,
-- which has 32.
pub record IsKeyPair (ed25519_sign : Bytes → Bytes → Bytes)
    (ed25519_verify : Bytes → Bytes → Bytes → Bool) (private_key public_key : Bytes) : Type 0 where
  pub verifies : (m : Bytes) → ed25519_verify public_key m (ed25519_sign private_key m) ≡ true
  pub signature_size : (m : Bytes) → length (ed25519_sign private_key m) ≡ 64
  pub key_size : length public_key ≡ 32

module _ (sha256 : Bytes → Bytes) (ed25519_verify : Bytes → Bytes → Bytes → Bool)
    (public_key : Bytes) (k : ℕ) where
  -- A schedule of which the results `t` are dispatched: the payment is the price of its passes, at
  -- most the maximum, and its number is that of its results; the streak holds the signed records of
  -- the challenges failed since the last pass, the last k of them, and the last record has the
  -- schedule's number.
  pub record IsSound (t : Tally) (s : PaymentSchedule) : Type 0 where
    pub positive : 0 < s.payment_per_pass
    pub affordable : s.payment_per_pass ≤ s.max_payment
    pub max_size : s.max_payment < 2 ^ 64
    pub sequence_size : s.sequence < 2 ^ 64
    pub numbered : s.sequence ≡ t.total
    pub counted : t.passes + length t.failed ≤ t.total
    pub paid : s.current_cumulative_payment ≡ min s.max_payment (t.passes * s.payment_per_pass)
    pub in_a_row : s.consecutive_failures ≡ min (2 ^ 32 - 1) (length t.failed)
    pub streak_size : length s.fail_streak ≡ min k (length t.failed)
    pub streak_challenges : challenges s.fail_streak ≡ recent k t.failed
    pub streak_runs :
        Runs sha256 ed25519_verify public_key
          (escrow_string s.escrow_contract_id)
          (s.sequence + 1 - length s.fail_streak)
          s.fail_streak

  -- The capped addition does not wrap.
  next_cumulative-min :
      (s : PaymentSchedule) (n : ℕ)
      → s.max_payment < 2 ^ 64
      → s.current_cumulative_payment ≡ min s.max_payment (n * s.payment_per_pass)
      → next_cumulative s ≡ min s.max_payment ((n + 1) * s.payment_per_pass)
  unfolding next_cumulative
  next_cumulative-min s n b h =
      let next : (n + 1) * s.payment_per_pass ≡ n * s.payment_per_pass + s.payment_per_pass =
        omega arith in
      rw next (ground (arith, h, b))

  pub passed-IsSound :
      (t : Tally) (s : PaymentSchedule) (marks : List (Bytes × Bool))
      → s.sequence ≢ 2 ^ 64 - 1
      → IsSound t s
      → IsSound (after_pass t) (record s {
        sequence = s.sequence + 1;
        current_cumulative_payment = next_cumulative s;
        processed_challenges = marks;
        consecutive_failures = 0;
        fail_streak = [];
      })
  passed-IsSound t s marks n h = record {
    positive = h.positive;
    affordable = h.affordable;
    max_size = h.max_size;
    sequence_size = omega (arith, h.sequence_size);
    numbered = omega (arith, h.numbered);
    counted = omega (arith, h.counted);
    paid = next_cumulative-min s t.passes h.max_size h.paid;
    in_a_row = omega arith;
    streak_size = omega arith;
    streak_challenges = sym (drop_nil (0 - k));
    streak_runs = tt;
  }

  pub failed-IsSound :
      (t : Tally) (s : PaymentSchedule) (id : Bytes) (rec : FailRecord)
      → k < 2 ^ 32
      → s.sequence ≢ 2 ^ 64 - 1
      → verify_fail_record sha256 ed25519_verify rec public_key ≡ true
      → rec.escrow_contract_id ≡ escrow_string s.escrow_contract_id
      → rec.sequence ≡ s.sequence + 1
      → rec.challenge_id ≡ id
      → IsSound t s
      → IsSound (after_fail id t) (failed_schedule k id rec s)
  unfolding failed_schedule next_count
  failed-IsSound t s id rec b n v e q c h =
      let long = length-append s.fail_streak (rec ∷ []) in
      let kept = length-keep_recent k (s.fail_streak ++ (rec ∷ [])) in
      let more = length-append t.failed (id ∷ []) in
      record {
        positive = h.positive;
        affordable = h.affordable;
        max_size = h.max_size;
        sequence_size = omega (arith, h.sequence_size);
        numbered = omega (arith, h.numbered);
        counted = omega (arith, h.counted, more);
        paid = h.paid;
        in_a_row = ground (arith, h.in_a_row, more);
        streak_size = omega (arith, kept, long, more, h.streak_size);
        streak_challenges =
            challenges-add k s.fail_streak rec t.failed h.streak_challenges
            ∙ ap (λ i. recent k (t.failed ++ (i ∷ []))) c;
        streak_runs =
            subst
              (λ m.
                Runs sha256 ed25519_verify public_key (escrow_string s.escrow_contract_id) m
                  (keep_recent k (s.fail_streak ++ (rec ∷ []))))
              (omega (arith, kept, long, h.streak_size, h.counted, h.numbered))
              (Runs-keep_recent sha256 ed25519_verify public_key _ _ k (s.fail_streak ++ (rec ∷ []))
                (Runs-append sha256 ed25519_verify public_key _
                  (s.sequence + 1 - length s.fail_streak) s.fail_streak rec h.streak_runs v e
                  (omega (arith, q, h.streak_size, h.counted, h.numbered))));
      }

some_injective : (a b : FailRecord) → some a ≡ some b → a ≡ b
some_injective a b h = cc

module _ (sha256 : Bytes → Bytes) (ed25519_sign : Bytes → Bytes → Bytes)
    (ed25519_verify : Bytes → Bytes → Bytes → Bool) where
  verify_fail_record-sign_fail_record :
      (key public_key : Bytes) (rec : FailRecord)
      → IsKeyPair ed25519_sign ed25519_verify key public_key
      → verify_fail_record sha256 ed25519_verify
          (sign_fail_record sha256 ed25519_sign key rec)
          public_key
        ≡ true
  unfolding sign_fail_record verify_fail_record build_fail_record_payload
  verify_fail_record-sign_fail_record key public_key rec keys =
      let m = sha256 (build_fail_record_payload rec) in
      ground (arith, keys.key_size, keys.signature_size m, keys.verifies m)

  -- The record that buildAndSignFailRecord returns.
  pub build_effect :
      (now : ℕ) (result : AvailabilityResult) (escrow : Bytes) (sequence : ℕ)
      (d : AvailabilityPaymentDispatcher) (rec : FailRecord) (public_key : Bytes)
      → IsKeyPair ed25519_sign ed25519_verify d.signer_key public_key
      → build_and_sign_fail_record sha256 ed25519_sign now result escrow sequence d ≡ some rec
      → (verify_fail_record sha256 ed25519_verify rec public_key ≡ true)
        × (rec.escrow_contract_id ≡ escrow_string escrow)
        × (rec.sequence ≡ sequence)
        × (rec.challenge_id ≡ result.challenge_id)
        × (provider_address_for result d.coordinator ≡ some rec.provider_eth_address)
  unfolding build_and_sign_fail_record sign_fail_record
  build_effect now result escrow sequence d rec public_key keys h =
      elim (Option-cases (provider_address_for result d.coordinator)) [
        | inl n ↦ absurd (ground (arith, h, n))
        | inr (address, n) ↦
            let draft : FailRecord = record {
              escrow_contract_id = escrow_string escrow;
              provider_eth_address = address;
              challenge_id = result.challenge_id;
              period = result.period;
              sequence = sequence;
              issued_at = now;
              publisher_signature = [];
            } in
            let e : sign_fail_record sha256 ed25519_sign d.signer_key draft ≡ rec =
              (let run : build_and_sign_fail_record sha256 ed25519_sign now result escrow sequence d
                    ≡ some (sign_fail_record sha256 ed25519_sign d.signer_key draft) =
                  rw (n, build_and_sign_fail_record) in
                some_injective _ _ (sym run ∙ h)) in
            subst
              (λ (r : FailRecord).
                (verify_fail_record sha256 ed25519_verify r public_key ≡ true)
                × (r.escrow_contract_id ≡ escrow_string escrow)
                × (r.sequence ≡ sequence)
                × (r.challenge_id ≡ result.challenge_id)
                × (provider_address_for result d.coordinator ≡ some r.provider_eth_address))
              e
              (
                verify_fail_record-sign_fail_record d.signer_key public_key draft keys,
                refl,
                refl,
                refl,
                n,
              )
      ]
