-- ===== src/Availability/Settlement/Shares.antt =====
-- What settlement.go pays: the shares add up, and the quotient is the exact proportional share.
use native.Mathlib.Nat.{
  div-le_self, le-mul_of_pos_right, div-lt_iff_lt-mul, mul-div_cancel, mul-lt-mul_of_pos_left,
  mul-le-mul_left, div-le_of_le-mul, mul_comm,
}
use cipher.Prelude.{
  ℕ, ◌+◌, ◌-◌, ◌*◌, ◌/◌, ◌≤◌, ◌<◌, ◌^◌, ◌==◌, false, ◌≡◌, ◌↔◌, List, [], ◌∷◌, length, ok,
  if◌then◌else◌, arith,
}
use cipher.Prelude.Int.{
  pos, is_positive, quot64, mul64_lem, sub64_lem, mul64_negative, sub64-negate_ne_zero,
  negate_not_positive,
}
use cipher.Availability.Types.{ChallengeResult, SettlementState, SettlementStatus}
use cipher.Availability.Settlement.{successes, failures, calculate_settlement}

-- Every result is counted once.
pub successes-add-failures : (rs : List ChallengeResult) → successes rs + failures rs ≡ length rs
unfolding successes failures
successes-add-failures [] = omega arith
successes-add-failures (r ∷ rs) = ground (arith, successes-add-failures rs)

share_le : (f s n : ℕ) → s ≤ n → f * s / n ≤ f
share_le f s n h = div-le_of_le-mul n (grind (arith, mul-le-mul_left f h, mul_comm f n))

share_lt : (f s n : ℕ) → s < n → 0 < f → f * s / n < f
share_lt f s n h p = (div-lt_iff_lt-mul (omega arith)).1 (mul-lt-mul_of_pos_left h p)

-- A positive amount whose product with the number of results fits an int64 is split exactly: the
-- released part is the proportional share rounded down, the rest is withheld, and the status says
-- whether anything is withheld.
pub calculate_settlement-exact :
    (f : ℕ) (rs : List ChallengeResult)
    → 0 < f
    → 0 < length rs
    → f * length rs < 2 ^ 63
    → calculate_settlement (pos f) rs
      ≡ ok (record {
        status =
            if f == f * successes rs / length rs
            then SettlementStatus.completed
            else SettlementStatus.withheld;
        released_amount = pos (f * successes rs / length rs);
        withheld_amount = pos (f - f * successes rs / length rs);
        successful_proofs = successes rs;
        failed_proofs = failures rs;
        finalized_at = 0;
      })
unfolding calculate_settlement quot64
calculate_settlement-exact f [] p q h = absurd (omega arith)
calculate_settlement-exact f (r ∷ rs) p q h =
    let s = successes (r ∷ rs) in
    let n = length (r ∷ rs) in
    let counted : s ≤ n = omega (arith, successes-add-failures (r ∷ rs)) in
    ground (
      arith,
      mul64_lem f s,
      mul-le-mul_left f counted,
      share_le f s n counted,
      sub64_lem f (f * s / n),
      le-mul_of_pos_right {m = n} f q,
      le-mul_of_pos_right {m = f} n p,
      mul_comm n f,
    )

-- A settlement of a positive amount whose product with the number of results, at least one, fits
-- an int64 pays out the whole amount, part released and part withheld, and is completed
-- exactly when no recorded result failed.
pub calculate_settlement-conserves :
    (f : ℕ) (rs : List ChallengeResult) {st : SettlementState}
    → 0 < f
    → 0 < length rs
    → f * length rs < 2 ^ 63
    → calculate_settlement (pos f) rs ≡ ok st
    → ((r : ℕ) × (w : ℕ) × (st.released_amount ≡ pos r)
        × (st.withheld_amount ≡ pos w)
        × (r + w ≡ f))
      × ((st.status ≡ SettlementStatus.completed) ↔ (failures rs ≡ 0))
calculate_settlement-conserves f rs p q h e =
    let s = successes rs in
    let n = length rs in
    let counted : s + failures rs ≡ n = successes-add-failures rs in
    (
      (
        f * s / n,
        f - f * s / n,
        ground (arith, calculate_settlement-exact f rs p q h),
        ground (arith, calculate_settlement-exact f rs p q h),
        omega (arith, share_le f s n (omega arith)),
      ),
      (
        ground (arith, calculate_settlement-exact f rs p q h, share_lt f s n),
        ground (arith, calculate_settlement-exact f rs p q h, mul-div_cancel f q),
      ),
    )

-- Where the product of an int64 amount and the number of results is at least 2 ^ 63 and below
-- 2 ^ 64, it is negative as an int64: a settlement that is computed when every result passed
-- releases nothing positive and is withheld.
pub calculate_settlement_overflows :
    (f : ℕ) (rs : List ChallengeResult) {st : SettlementState}
    → f < 2 ^ 63
    → 2 ^ 63 ≤ f * length rs
    → f * length rs < 2 ^ 64
    → failures rs ≡ 0
    → calculate_settlement (pos f) rs ≡ ok st
    → (is_positive st.released_amount ≡ false) × (st.status ≡ SettlementStatus.withheld)
unfolding calculate_settlement quot64
calculate_settlement_overflows f [] hf lo hi all e = absurd (omega arith)
calculate_settlement_overflows f (r ∷ rs) hf lo hi all e =
    let n = length (r ∷ rs) in
    let passed : successes (r ∷ rs) ≡ n = omega (arith, successes-add-failures (r ∷ rs)) in
    let k = (2 ^ 64 - f * n) / n in
    ground (
      arith,
      passed,
      mul64_negative f n,
      le-mul_of_pos_right {m = f} n,
      mul_comm n f,
      div-le_self (2 ^ 64 - f * n) n,
      sub64-negate_ne_zero f k,
      negate_not_positive k,
    )
