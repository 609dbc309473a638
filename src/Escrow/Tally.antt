-- ===== src/Escrow/Tally.antt =====
-- What a history of dispatcher.go has dispatched of each contract, counted from its results alone.
use cipher.Prelude.{ℕ, ◌+◌, Result, ok, err, List, [], ◌∷◌, ◌++◌, Bytes, bytes_eq, if◌then◌else◌}
use cipher.Availability.Types.{AvailabilityResult, AvailabilityStatus, pass, fail, other}
use cipher.Escrow.Payment.{StateSigner}
use cipher.Escrow.Schedule.{DispatchError, AvailabilityPaymentDispatcher, DispatchResult}
use cipher.Escrow.Dispatcher.{dispatch_availability_result}
use cipher.Escrow.History.{Step, Run, Reachable, register, dispatch, coordinate, stay, more, reach}

-- The passes, the challenges failed since the last of them, the oldest first, and the results.
pub record Tally : Type 0 where
  pub passes : ℕ
  pub failed : List Bytes
  pub total : ℕ

abbrev pub no_results : Tally
no_results = record { passes = 0; failed = []; total = 0 }

abbrev pub after_pass : Tally → Tally
after_pass t = record { passes = t.passes + 1; failed = []; total = t.total + 1 }

abbrev pub after_fail : Bytes → Tally → Tally
after_fail challenge_id t = record t {
  failed = t.failed ++ (challenge_id ∷ []);
  total = t.total + 1;
}

abbrev pub recorded : AvailabilityStatus → Bytes → Tally → Tally
recorded pass challenge_id t = after_pass t
recorded fail challenge_id t = after_fail challenge_id t
recorded (other status) challenge_id t = t

-- A dispatch counts for its contract if it succeeds.
abbrev pub counted_for :
    Bytes → AvailabilityResult → Result DispatchError DispatchResult → Tally → Tally
counted_for id result (err e) t = t
counted_for id result (ok out) t =
    if bytes_eq result.contract_id id then recorded result.result result.challenge_id t else t

module _ (sha256 : Bytes → Bytes) (ed25519_sign : Bytes → Bytes → Bytes)
    (signer : StateSigner) where
  unfoldable pub step_tally :
      Bytes
      → {d d' : AvailabilityPaymentDispatcher} → Step sha256 ed25519_sign signer d d'
      → Tally
      → Tally
  step_tally id (register k escrow per_pass max b d) t = t
  step_tally id (dispatch now result d) t =
      counted_for id result (dispatch_availability_result sha256 ed25519_sign signer now result d).1
        t
  step_tally id (coordinate c d) t = t

  unfoldable pub run_tally :
      Bytes → {d d' : AvailabilityPaymentDispatcher} → Run sha256 ed25519_sign signer d d' → Tally
  run_tally id (stay d) = no_results
  run_tally id (more d d' d'' r s) = step_tally id s (run_tally id r)

  -- The results of a contract that the history of a dispatcher has dispatched.
  unfoldable pub tally :
      (key : Bytes)
      → Bytes
      → {d : AvailabilityPaymentDispatcher} → Reachable sha256 ed25519_sign signer key d
      → Tally
  tally key id (reach c opts d d' b made r) = run_tally id r
