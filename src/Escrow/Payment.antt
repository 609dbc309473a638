-- ===== src/Escrow/Payment.antt =====
-- availability/escrow-payment/payment: payment_state.go, signing.go, submission.go, verification.go.
-- SHA-256 and Ed25519 are parameters of what uses them.
use cipher.Prelude.{
  ℕ, ltb, leb, Bool, true, false, not, ◌&&◌, ◌||◌, ◌==◌, Option, none, some, List, [], ◌∷◌, ◌++◌,
  Bytes, bytes, bytes_eq, is_empty, length, Result, ok, err, if◌then◌else◌, ◌≡◌, ◌≢◌,
}
use cipher.Prelude.Encoding.{be_bytes, prefixed}
use cipher.Availability.Types.{AvailabilityResult, AvailabilityStatus, pass, fail, other}

pub data PaymentError : Type 0 where
  missing_fields not_passed bad_key incomplete unsigned stale no_state mismatched : PaymentError
  adapter_failed : ℕ → PaymentError

pub record PaymentState : Type 0 where
  pub contract_id : Bytes
  pub publisher : Bytes
  pub provider : Bytes
  pub sequence : ℕ
  pub period : ℕ
  pub cumulative_payment : ℕ
  pub last_challenge_id : Bytes
  pub valid_until : ℕ
  pub status : AvailabilityStatus
  pub publisher_signature : Bytes

-- PaymentState{}
abbrev pub no_payment : PaymentState
no_payment = record {
  contract_id = [];
  publisher = [];
  provider = [];
  sequence = 0;
  period = 0;
  cumulative_payment = 0;
  last_challenge_id = [];
  valid_until = 0;
  status = other [];
  publisher_signature = [];
}

abbrev pub is_pass : AvailabilityStatus → Bool
is_pass pass = true
is_pass _ = false

-- CreatePaymentState
unfoldable pub create_payment_state :
    AvailabilityResult → Bytes → ℕ → ℕ → Result PaymentError PaymentState
create_payment_state result publisher_id cumulative_payment sequence =
    if is_empty result.contract_id
      || is_empty result.provider_id
      || is_empty result.challenge_id
      || is_empty publisher_id
    then err missing_fields
    else if not (is_pass result.result)
    then err not_passed
    else ok (record {
      contract_id = result.contract_id;
      publisher = publisher_id;
      provider = result.provider_id;
      sequence = sequence;
      period = result.period;
      cumulative_payment = cumulative_payment;
      last_challenge_id = result.challenge_id;
      valid_until = 0;
      status = result.result;
      publisher_signature = [];
    })

-- string(paymentState.Status)
abbrev pub status_string : AvailabilityStatus → Bytes
status_string pass = bytes "PASS"
status_string fail = bytes "FAIL"
status_string (other s) = s

-- What paymentStateDigest writes into the hash.
unfoldable pub payment_payload : PaymentState → Bytes
payment_payload p =
    prefixed p.contract_id
    ++ (prefixed p.publisher
        ++ (prefixed p.provider
            ++ (be_bytes 8 p.sequence
                ++ (be_bytes 8 p.period
                    ++ (be_bytes 8 p.cumulative_payment
                        ++ (prefixed p.last_challenge_id
                            ++ (be_bytes 8 p.valid_until ++ prefixed (status_string p.status))))))))

module _ (sha256 : Bytes → Bytes) where
  -- paymentStateDigest
  unfoldable pub payment_state_digest : PaymentState → Bytes
  payment_state_digest p = sha256 (payment_payload p)

  -- SignPaymentState and Ed25519Signer.Sign
  unfoldable pub sign_payment_state :
      (Bytes → Bytes → Bytes) → Bytes → PaymentState → Result PaymentError PaymentState
  sign_payment_state ed25519_sign private_key p =
      if not (length private_key == 64)
      then err bad_key
      else if is_empty p.contract_id || is_empty p.publisher || is_empty p.provider
      then err incomplete
      else ok (record p { publisher_signature = ed25519_sign private_key (payment_state_digest p) })

  -- VerifyPaymentState
  unfoldable pub verify_payment_state : (Bytes → Bytes → Bytes → Bool) → PaymentState → Bytes → Bool
  verify_payment_state ed25519_verify p public_key =
      if not (length public_key == 32)
      then false
      else if not (length p.publisher_signature == 64)
      then false
      else ed25519_verify public_key (payment_state_digest p) p.publisher_signature

-- StateSigner: what the coordinator asks of its signer. A signer answers with the state it is given
-- and a signature that is not empty.
pub record StateSigner : Type 0 where
  pub sign : PaymentState → Result PaymentError PaymentState
  pub signs :
      (p q : PaymentState)
      → sign p ≡ ok q
      → (q ≡ (record p { publisher_signature = q.publisher_signature }))
        × (q.publisher_signature ≢ [])

pub record PaymentStateStore : Type 0 where
  pub latest : PaymentState
  pub has_state : Bool

-- PaymentStateStore{}
abbrev pub empty_store : PaymentStateStore
empty_store = record { latest = no_payment; has_state = false }

-- The comparison of PaymentStateStore.StorePaymentState with the stored state.
abbrev pub is_stale : PaymentState → PaymentState → Bool
is_stale p latest =
    not (bytes_eq p.contract_id latest.contract_id)
    || leb p.sequence latest.sequence
    || ltb p.cumulative_payment latest.cumulative_payment

-- PaymentStateStore.StorePaymentState
unfoldable pub store_payment_state :
    PaymentState → PaymentStateStore → PaymentStateStore × Result PaymentError (Unit {0})
store_payment_state p s =
    if is_empty p.contract_id || is_empty p.publisher_signature
    then (s, err unsigned)
    else if s.has_state && is_stale p s.latest
    then (s, err stale)
    else (record { latest = p; has_state = true }, ok tt)

-- PaymentStateStore.GetLatestPaymentState
unfoldable pub get_latest_payment_state : PaymentStateStore → Result PaymentError PaymentState
get_latest_payment_state s = if not s.has_state then err no_state else ok s.latest

-- A call of an escrow adapter, which talks to the chain.
pub data ChainCall : Type 0 where
  submitted settled : Bytes → PaymentState → ChainCall

-- What the adapters answer to a call.
abbrev pub Adapter : Type 0
Adapter = ChainCall → Result PaymentError (Unit {0})

-- SubmitPaymentState: the calls it makes, and its result. A nil submitter is `none`.
unfoldable pub submit_payment_state :
    Option Adapter → Bytes → PaymentState → List ChainCall × Result PaymentError (Unit {0})
submit_payment_state none contract_id p = ([], err mismatched)
submit_payment_state (some adapter) contract_id p =
    if is_empty contract_id || not (bytes_eq p.contract_id contract_id)
    then ([], err mismatched)
    else if is_empty p.publisher_signature
    then ([], err unsigned)
    else (submitted contract_id p ∷ [], adapter (submitted contract_id p))
