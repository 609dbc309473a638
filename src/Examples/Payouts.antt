-- ===== src/Examples/Payouts.antt =====
-- The theorems on states, settlements and epochs at concrete inputs.
use mathlib.Core.List.{Perm}
use cipher.Prelude.{
  ℕ, ◌+◌, ◌-◌, ◌*◌, ◌/◌, ◌==◌, ◌<◌, ◌^◌, ◌≡◌, ◌≢◌, ◌↔◌, refl, Bool, true, false, Option, some, none,
  List, [], ◌∷◌, ◌++◌, Bytes, bytes, ok, err, arith, length, lookup, if◌then◌else◌, All,
}
use cipher.Prelude.Int.{ℤ, pos, is_positive}
use cipher.Prelude.Encoding.{hex_encode}
use cipher.Availability.Types.{ChallengeResult, SettlementState, SettlementStatus, proposed, agreed}
use cipher.Availability.Lifecycle.{transition, Follows, transition-Follows_iff}
use cipher.Availability.Settlement.{successes, failures, calculate_settlement}
use cipher.Availability.Settlement.Shares.{
  calculate_settlement-exact, calculate_settlement-conserves, calculate_settlement_overflows,
}
use cipher.Availability.Epoch.{
  EpochStore, create_epoch, select_uncovered_chunk, no_uncovered, indices,
}
use cipher.Availability.Epoch.Coverage.{select_each}
use cipher.Availability.Epoch.Store.{IsSoundStore}
use cipher.Availability.Epoch.Fresh.{create_epoch-covers}
use cipher.Availability.Epoch.History
use cipher.Examples.Ledger.{passed}

transition-Follows_iff_example :
    (transition proposed agreed ≡ ok agreed) ↔ (Follows proposed agreed × (agreed ≡ agreed))
transition-Follows_iff_example = transition-Follows_iff proposed agreed agreed

abbrev failed : ChallengeResult
failed = record { challenge_id = bytes "d"; succeeded = false; recorded_at = 0 }

abbrev results : List ChallengeResult
results = passed ∷ passed ∷ failed ∷ []

abbrev settlement : SettlementState
settlement = record {
  status = SettlementStatus.withheld;
  released_amount = pos 66;
  withheld_amount = pos 34;
  successful_proofs = 2;
  failed_proofs = 1;
  finalized_at = 0;
}

calculate_settlement-exact_example : calculate_settlement (pos 100) results ≡ ok settlement
unfolding successes failures
calculate_settlement-exact_example =
    calculate_settlement-exact 100 results (omega arith) (omega arith) (omega arith)

calculate_settlement-conserves_example :
    ((r : ℕ) × (w : ℕ) × (pos 66 ≡ pos r) × (pos 34 ≡ pos w) × (r + w ≡ 100))
    × ((SettlementStatus.withheld ≡ SettlementStatus.completed) ↔ (failures results ≡ 0))
unfolding calculate_settlement failures cipher.Prelude.Int.sub64 cipher.Prelude.Int.quot64 successes
    cipher.Prelude.Int.mul64
calculate_settlement-conserves_example =
    calculate_settlement-conserves 100 results {st = settlement} (omega arith) (omega arith)
      (omega arith) refl

abbrev overflown : SettlementState
overflown = record {
  status = SettlementStatus.withheld;
  released_amount = ℤ.negsuc (2 ^ 62 - 1);
  withheld_amount = ℤ.negsuc (2 ^ 63 - 1);
  successful_proofs = 2;
  failed_proofs = 0;
  finalized_at = 0;
}

calculate_settlement_overflows_example :
    (is_positive overflown.released_amount ≡ false) × (overflown.status ≡ SettlementStatus.withheld)
unfolding calculate_settlement failures cipher.Prelude.Int.sub64 cipher.Prelude.Int.quot64 successes
    cipher.Prelude.Int.mul64
calculate_settlement_overflows_example =
    calculate_settlement_overflows (2 ^ 62) (passed ∷ passed ∷ []) {st = overflown} (omega arith)
      (omega arith) (omega arith) refl refl

create_epoch-covers_example :
    let (s', created) =
      create_epoch (some (1 ∷ [])) 5 (bytes "bob") (bytes "song") (pos 2) History.empty_store in
    let id = bytes "epoch-" ++ hex_encode (1 ∷ []) in
    (created ≡ ok id)
    × (ids : List ℕ) × (t : EpochStore) × (select_each id ((4 ∷ []) ∷ (5 ∷ []) ∷ []) s'
        ≡ (t, ok ids))
    × Perm ids (indices 0 2)
    × (select_uncovered_chunk id (6 ∷ []) t ≡ (t, err no_uncovered))
create_epoch-covers_example =
    create_epoch-covers (1 ∷ []) 5 (bytes "bob") (bytes "song") 2 History.empty_store (λ z. cc)
      (λ z. cc) (omega arith) ((4 ∷ []) ∷ (5 ∷ []) ∷ []) (6 ∷ []) (λ z. cc) (λ z. cc, (λ z. cc, tt))
      refl

abbrev epoch_calls : List History.EpochCall
epoch_calls =
    History.create (some (1 ∷ [])) 5 (bytes "bob") (bytes "song") (pos 2)
    ∷ History.select (bytes "epoch-01") (4 ∷ [])
    ∷ []

perform_all_sound_example : IsSoundStore (History.perform_all epoch_calls History.empty_store)
perform_all_sound_example = History.perform_all_sound epoch_calls (omega arith, (tt, tt))
