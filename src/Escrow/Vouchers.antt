-- ===== src/Escrow/Vouchers.antt =====
-- The vouchers of sign_only.go: what CreateAndSignPaymentState signs and stores.
use cipher.Prelude.{
  ℕ, ◌<◌, ◌≤◌, ◌≡◌, ◌≢◌, ◌⊎◌, refl, subst, if-cases, inl, inr, [], some, ok, err, not, Bytes, arith,
  true, false, Result, Result-cases, Option-cases, lookup, insert,
}
use cipher.Prelude.Int.{is_positive}
use cipher.Availability.Types.{AvailabilityResult}
use cipher.Escrow.Bindings.{
  EthereumAddress, EscrowContractId, escrow_id, provider_address, escrow_string, address_string,
}
use cipher.Escrow.Payment.{
  PaymentError, PaymentState, PaymentStateStore, StateSigner, create_payment_state,
  store_payment_state, is_pass,
}
use cipher.Escrow.Coordinator.{
  CoordinatorError, PublisherCoordinator, valid_until_of, is_old, commit_signed, store_signed,
  authorize, create_and_sign_payment_state,
}

-- The state is signed for the escrow, the payment and the number asked for, it goes beyond the one
-- stored before, if any, and takes its place; nothing else changes.
pub record Voucher (now : ℕ) (result : AvailabilityResult) (cumulative sequence : ℕ)
    (c c' : PublisherCoordinator) (signed : PaymentState) : Type 0 where
  pub escrow : EscrowContractId
  pub address : EthereumAddress
  pub before : PaymentStateStore
  pub passed : is_pass result.result ≡ true
  pub bound_escrow : escrow_id result.contract_id c.bindings ≡ some escrow
  pub bound_address : provider_address result.provider_id c.bindings ≡ some address
  pub found : lookup (escrow_string escrow) c.stores ≡ some before
  pub forward :
      (before.has_state ≡ false)
      ⊎ ((before.latest.sequence < sequence) × (before.latest.cumulative_payment ≤ cumulative))
  pub states : signed ≡ (record {
    contract_id = escrow_string escrow;
    publisher = c.publisher_id;
    provider = address_string address;
    sequence = sequence;
    period = result.period;
    cumulative_payment = cumulative;
    last_challenge_id = result.challenge_id;
    valid_until = valid_until_of now c.payment_state_ttl;
    status = result.result;
    publisher_signature = signed.publisher_signature;
  })
  pub signed_by_publisher : signed.publisher_signature ≢ []
  pub stored : c' ≡ (record c {
    stores = insert (escrow_string escrow) (record { latest = signed; has_state = true }) c.stores;
  })

forward_lem :
    (sequence cumulative : ℕ) (s : PaymentStateStore)
    → is_old sequence cumulative s ≡ false
    → (s.has_state ≡ false)
      ⊎ ((s.latest.sequence < sequence) × (s.latest.cumulative_payment ≤ cumulative))
forward_lem sequence cumulative s h = ground arith

store_effect :
    (p : PaymentState) (s s' : PaymentStateStore) (u : Unit {0})
    → store_payment_state p s ≡ (s', ok u)
    → s' ≡ (record { latest = p; has_state = true })
unfolding store_payment_state
store_effect p s s' u h = ground arith

create_effect :
    (result : AvailabilityResult) (publisher : Bytes) (cumulative sequence : ℕ) (p : PaymentState)
    → create_payment_state result publisher cumulative sequence ≡ ok p
    → p ≡ (record {
      contract_id = result.contract_id;
      publisher = publisher;
      provider = result.provider_id;
      sequence = sequence;
      period = result.period;
      cumulative_payment = cumulative;
      last_challenge_id = result.challenge_id;
      valid_until = 0;
      status = result.result;
      publisher_signature = [];
    })
unfolding create_payment_state
create_effect result publisher cumulative sequence p h = ground arith

-- What an answer says when it is a success.
Issues :
    (PublisherCoordinator → PaymentState → Type 0)
    → PublisherCoordinator × Result CoordinatorError PaymentState
    → Type 0
Issues P (c', err e) = Unit {0}
Issues P (c', ok signed) = P c' signed

module _ (signer : StateSigner) (now : ℕ) (result : AvailabilityResult) (cumulative sequence : ℕ)
    (escrow : EscrowContractId) (address : EthereumAddress) (s : PaymentStateStore)
    (c : PublisherCoordinator) (passed : is_pass result.result ≡ true)
    (bound_escrow : escrow_id result.contract_id c.bindings ≡ some escrow)
    (bound_address : provider_address result.provider_id c.bindings ≡ some address)
    (found : lookup (escrow_string escrow) c.stores ≡ some s)
    (newer : is_old sequence cumulative s ≡ false) where
  -- The state that is handed to the signer.
  abbrev draft : PaymentState
  draft = record {
    contract_id = escrow_string escrow;
    publisher = c.publisher_id;
    provider = address_string address;
    sequence = sequence;
    period = result.period;
    cumulative_payment = cumulative;
    last_challenge_id = result.challenge_id;
    valid_until = valid_until_of now c.payment_state_ttl;
    status = result.result;
    publisher_signature = [];
  }

  commit-Voucher :
      (signed : PaymentState) (answer : PaymentStateStore × Result PaymentError (Unit {0}))
      → signer.sign draft ≡ ok signed
      → store_payment_state signed s ≡ answer
      → Issues
          (Voucher now result cumulative sequence c)
          (commit_signed (escrow_string escrow) signed c answer)
  unfolding Issues commit_signed
  commit-Voucher signed (s', err e) hs h = tt
  commit-Voucher signed (s', ok u) hs h = record {
    escrow = escrow;
    address = address;
    before = s;
    passed = passed;
    bound_escrow = bound_escrow;
    bound_address = bound_address;
    found = found;
    forward = forward_lem sequence cumulative s newer;
    states = (signer.signs draft signed hs).0;
    signed_by_publisher = (signer.signs draft signed hs).1;
    stored = rw (store_effect signed s s' u h);
  }

  sign-Voucher :
      (r : Result PaymentError PaymentState)
      → signer.sign draft ≡ r
      → Issues
          (Voucher now result cumulative sequence c)
          (store_signed (escrow_string escrow) s c r)
  unfolding Issues store_signed
  sign-Voucher (err e) h = tt
  sign-Voucher (ok signed) h = commit-Voucher signed _ h refl

module _ (signer : StateSigner) where
  authorize-Voucher :
      (now : ℕ) (result : AvailabilityResult) (cumulative sequence : ℕ) (escrow address : Bytes)
      (s : PaymentStateStore) (c : PublisherCoordinator)
      → is_pass result.result ≡ true
      → escrow_id result.contract_id c.bindings ≡ some escrow
      → provider_address result.provider_id c.bindings ≡ some address
      → lookup (escrow_string escrow) c.stores ≡ some s
      → Issues
          (Voucher now result cumulative sequence c)
          (authorize signer now result cumulative sequence (escrow_string escrow) address s c)
  unfolding Issues authorize
  authorize-Voucher now result cumulative sequence escrow address s c hp he ha hs =
      let paid = record result { provider_id = address_string address } in
      if-cases (Issues (Voucher now result cumulative sequence c)) (is_old sequence cumulative s) _
        _ (λ old. tt)
        (λ newer.
          elim (Result-cases (create_payment_state paid c.publisher_id cumulative sequence)) [
            | inl (e, h) ↦ rw h tt
            | inr (p, h) ↦ rw h (
                rw (create_effect paid c.publisher_id cumulative sequence p h) (
                  sign-Voucher signer now result cumulative sequence escrow address s c hp he ha hs
                    newer _ refl))
          ])

  create-Issues :
      (now : ℕ) (result : AvailabilityResult) (cumulative sequence : ℕ) (c : PublisherCoordinator)
      → Issues
          (Voucher now result cumulative sequence c)
          (create_and_sign_payment_state signer now result cumulative sequence c)
  unfolding Issues create_and_sign_payment_state
  create-Issues now result cumulative sequence c =
      let P = Issues (Voucher now result cumulative sequence c) in
      if-cases P (not (is_pass result.result)) _ _ (λ h. tt)
        (λ passed.
          if-cases P (not (is_positive c.payment_state_ttl)) _ _ (λ h. tt)
            (λ h. elim (Option-cases (escrow_id result.contract_id c.bindings)) [
              | inl h ↦ rw h tt
              | inr (escrow, h) ↦
                  elim (Option-cases (provider_address result.provider_id c.bindings)) [
                    | inl k ↦ rw (h, k) tt
                    | inr (address, k) ↦
                        elim (Option-cases (lookup (escrow_string escrow) c.stores)) [
                          | inl l ↦ rw (h, k, l) tt
                          | inr (s, l) ↦
                              rw (h, k, l)
                                (authorize-Voucher now result cumulative sequence escrow address s c
                                  (ground (arith, passed)) h k l)
                        ]
                  ]
            ]))

  -- CreateAndSignPaymentState, when it succeeds, issues a voucher.
  pub create-Voucher :
      (now : ℕ) (result : AvailabilityResult) (cumulative sequence : ℕ)
      (c c' : PublisherCoordinator) (signed : PaymentState)
      → create_and_sign_payment_state signer now result cumulative sequence c ≡ (c', ok signed)
      → Voucher now result cumulative sequence c c' signed
  unfolding Issues
  create-Voucher now result cumulative sequence c c' signed h =
      subst (Issues (Voucher now result cumulative sequence c)) h
        (create-Issues now result cumulative sequence c)
