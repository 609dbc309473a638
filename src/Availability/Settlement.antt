-- ===== src/Availability/Settlement.antt =====
-- availability/availability-contracts/settlement/settlement.go: the payment outcome of the recorded
-- results.
pub mod Shares
use cipher.Prelude.{
  ℕ, suc, ◌+◌, ◌*◌, ◌≤◌, ◌<◌, ◌^◌, ◌==◌, ltb, Bool, true, false, not, ◌||◌, ◌≡◌, refl, ◌≢◌, ◌↔◌,
  List, [], ◌∷◌, is_empty, length, Result, ok, err, if◌then◌else◌, arith,
}
use cipher.Prelude.Int.{ℤ, pos, negsuc, is_positive, eq_ℤ, mul64, sub64, quot64}
use cipher.Availability.Types.{ChallengeResult, SettlementState, SettlementStatus}

pub data SettlementError : Type 0 where
  non_positive_amount no_results : SettlementError

-- The loop over `results`: how many succeeded, and how many failed.
unfoldable pub successes : List ChallengeResult → ℕ
successes [] = 0
successes (r ∷ rs) = if r.succeeded then successes rs + 1 else successes rs

unfoldable pub failures : List ChallengeResult → ℕ
failures [] = 0
failures (r ∷ rs) = if r.succeeded then failures rs else failures rs + 1

-- CalculateSettlement. `FinalizedAt` keeps the zero time.
unfoldable pub calculate_settlement :
    ℤ → List ChallengeResult → Result SettlementError SettlementState
calculate_settlement funded_amount results =
    if not (is_positive funded_amount)
    then err non_positive_amount
    else if is_empty results
    then err no_results
    else let released = quot64 (mul64 funded_amount (pos (successes results))) (length results) in
      let withheld = sub64 funded_amount released in
      ok (record {
        status =
            if eq_ℤ withheld (pos 0) then SettlementStatus.completed else SettlementStatus.withheld;
        released_amount = released;
        withheld_amount = withheld;
        successful_proofs = successes results;
        failed_proofs = failures results;
        finalized_at = 0;
      })
