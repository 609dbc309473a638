-- ===== src/Escrow/History.antt =====
-- Histories of dispatcher.go: a dispatcher, its registrations and its dispatches, between which the
-- coordinator that it shares may become any other.
use cipher.Prelude.{
  ℕ, ◌^◌, ◌<◌, ◌≤◌, ◌≡◌, refl, ◌∙◌, ap, ◌⊎◌, ◌||◌, ◌==◌, ltb, Bool-cases, inl, inr, none, some,
  Option-cases, Result, ok, err, List, Bytes, bytes_eq, is_empty, zeros, All, arith, lookup,
}
use cipher.Availability.Types.{AvailabilityResult}
use cipher.Escrow.Bindings.{EscrowContractId}
use cipher.Escrow.Payment.{StateSigner}
use cipher.Escrow.Coordinator.{CoordinatorError, PublisherCoordinator, register_contract}
use cipher.Escrow.Schedule.{
  AvailabilityPaymentDispatcher, new_availability_payment_dispatcher, register_contract_schedule,
  registered,
}
use cipher.Escrow.Dispatcher.{dispatch_availability_result}

module _ (sha256 : Bytes → Bytes) (ed25519_sign : Bytes → Bytes → Bytes)
    (signer : StateSigner) where
  -- The amounts are of type uint64.
  pub data Step : AvailabilityPaymentDispatcher → AvailabilityPaymentDispatcher → Type 0 where
    register :
        (id : Bytes) (escrow : EscrowContractId) (per_pass max : ℕ)
        → max < 2 ^ 64
        → (d : AvailabilityPaymentDispatcher)
        → Step d (register_contract_schedule id escrow per_pass max d).0
    dispatch :
        (now : ℕ) (result : AvailabilityResult) (d : AvailabilityPaymentDispatcher)
        → Step d (dispatch_availability_result sha256 ed25519_sign signer now result d).0
    coordinate :
        (c : PublisherCoordinator) (d : AvailabilityPaymentDispatcher)
        → Step d (record d { coordinator = c })

  pub data Run : AvailabilityPaymentDispatcher → AvailabilityPaymentDispatcher → Type 0 where
    stay : (d : AvailabilityPaymentDispatcher) → Run d d
    more : (d d' d'' : AvailabilityPaymentDispatcher) → Run d d' → Step d' d'' → Run d d''

  -- The thresholds are of type uint32.
  pub data Reachable (signer_key : Bytes) : AvailabilityPaymentDispatcher → Type 0 where
    reach :
        (c : PublisherCoordinator) (thresholds : List ℕ) (d d' : AvailabilityPaymentDispatcher)
        → All (λ k. k < 2 ^ 32) thresholds
        → new_availability_payment_dispatcher (some c) signer_key thresholds ≡ ok d
        → Run d d'
        → Reachable signer_key d'

registered_effect :
    (id : Bytes) (escrow : EscrowContractId) (per_pass max : ℕ) (d : AvailabilityPaymentDispatcher)
    (x : PublisherCoordinator × Result CoordinatorError (Unit {0}))
    → ((c : PublisherCoordinator) × ((registered id escrow per_pass max d x).0
          ≡ (record d { coordinator = c })))
      ⊎ ((c : PublisherCoordinator) × ((registered id escrow per_pass max d x).0
            ≡ (registered id escrow per_pass max d (c, ok tt)).0))
unfolding registered
registered_effect id escrow per_pass max d (c, err e) = inl (c, refl)
registered_effect id escrow per_pass max d (c, ok u) = inr (c, refl)

-- What a registration does: at most a coordinator changes, or a first schedule enters.
pub register_effect :
    (id : Bytes) (escrow : EscrowContractId) (per_pass max : ℕ) (d : AvailabilityPaymentDispatcher)
    → let d' = (register_contract_schedule id escrow per_pass max d).0 in
      ((c : PublisherCoordinator) × (d' ≡ (record d { coordinator = c })))
      ⊎ ((c : PublisherCoordinator) × (0 < per_pass)
          × (per_pass ≤ max)
          × (lookup id d.schedules ≡ none)
          × (d' ≡ (registered id escrow per_pass max d (c, ok tt)).0))
unfolding register_contract_schedule
register_effect id escrow per_pass max d =
    elim (Bool-cases (is_empty id || bytes_eq escrow (zeros 32))) [
      | inl a ↦ inl (d.coordinator, rw (a, register_contract_schedule))
      | inr a ↦ elim (Bool-cases (per_pass == 0 || max == 0)) [
        | inl b ↦ inl (d.coordinator, rw (a, b, register_contract_schedule))
        | inr b ↦ elim (Bool-cases (ltb max per_pass)) [
          | inl e ↦ inl (d.coordinator, rw (a, b, e, register_contract_schedule))
          | inr e ↦ elim (Option-cases (lookup id d.schedules)) [
            | inr (s, l) ↦ inl (d.coordinator, rw (a, b, e, l, register_contract_schedule))
            | inl l ↦
                let run : register_contract_schedule id escrow per_pass max d
                    ≡ registered id escrow per_pass max d
                        (register_contract id escrow d.coordinator) =
                  rw (a, b, e, l, register_contract_schedule) in
                elim (registered_effect id escrow per_pass max d
                  (register_contract id escrow d.coordinator)) [
                    | inl (c, h) ↦ inl (c, ap (λ x. x.0) run ∙ h)
                    | inr (c, h) ↦
                        inr (c, ground (arith, b), ground (arith, e), l, ap (λ x. x.0) run ∙ h)
                  ]
          ]
        ]
      ]
    ]
