-- ===== src/Escrow/Redeeming.antt =====
-- The settlement of dispatcher.go and sign_only.go: which calls go to the chain.
use cipher.Prelude.{
  ℕ, ◌/◌, ◌%◌, ◌^◌, ◌<◌, ◌≡◌, ◌≢◌, ◌⊎◌, ◌||◌, refl, Bool-cases, inl, inr, List, [], ◌∷◌, some, ok,
  err, not, Bytes, bytes_eq, bytes_eq_iff, arith, true, false, Bool, Result, Option-cases, lookup,
  is_empty,
}
use cipher.Escrow.Payment.{
  PaymentError, PaymentState, PaymentStateStore, Adapter, ChainCall, submitted, settled,
  submit_payment_state, mismatched, unsigned,
}
use cipher.Escrow.Coordinator.{PublisherCoordinator, redeemable}

-- The calls for a payment state, and the answer, when some call is made: `given` says whether a
-- settler is set.
pub data Redeems {ℓ} (E : Type ℓ) (adapter : Adapter) (key : Bytes) (p : PaymentState)
    (given : Bool) (calls : List ChainCall) (r : Result E (Unit {0})) : Type ℓ where
  submitted_only :
      given ≡ false
      → adapter (submitted key p) ≡ ok tt
      → calls ≡ submitted key p ∷ []
      → r ≡ ok tt
      → Redeems E adapter key p given calls r
  not_submitted :
      (e : PaymentError) (f : E)
      → adapter (submitted key p) ≡ err e
      → calls ≡ submitted key p ∷ []
      → r ≡ err f
      → Redeems E adapter key p given calls r
  not_settled :
      (e : PaymentError) (f : E)
      → given ≡ true
      → adapter (submitted key p) ≡ ok tt
      → adapter (settled key p) ≡ err e
      → calls ≡ submitted key p ∷ settled key p ∷ []
      → r ≡ err f
      → Redeems E adapter key p given calls r
  both :
      given ≡ true
      → adapter (submitted key p) ≡ ok tt
      → adapter (settled key p) ≡ ok tt
      → calls ≡ submitted key p ∷ settled key p ∷ []
      → r ≡ ok tt
      → Redeems E adapter key p given calls r

-- A state of this contract that is signed.
abbrev pub IsSigned : Bytes → PaymentState → Type 0
IsSigned key p = (p.contract_id ≡ key) × (p.publisher_signature ≢ [])

pub submit_effect :
    (adapter : Adapter) (key : Bytes) (p : PaymentState)
    → ((e : PaymentError) × (submit_payment_state (some adapter) key p ≡ ([], err e)))
      ⊎ (IsSigned key p
          × (submit_payment_state (some adapter) key p
              ≡ (submitted key p ∷ [], adapter (submitted key p))))
unfolding submit_payment_state
submit_effect adapter key p = elim (Bool-cases (is_empty key || not (bytes_eq p.contract_id key))) [
  | inl h ↦ inl (mismatched, rw h refl)
  | inr h ↦ elim (Bool-cases (is_empty p.publisher_signature)) [
    | inl k ↦ inl (unsigned, rw (h, k) refl)
    | inr k ↦
        inr ((ground (arith, h, bytes_eq_iff p.contract_id key), ground (arith, k)), rw (h, k) refl)
  ]
]

-- The state under the key that is stored and has not expired.
abbrev pub IsRedeemable : ℕ → Bytes → PublisherCoordinator → PaymentState → Type 0
IsRedeemable now key c p =
    (t : PaymentStateStore) × (lookup key c.stores ≡ some t)
    × (t.has_state ≡ true)
    × (t.latest ≡ p)
    × (now / 10 ^ 9 % 2 ^ 64 < p.valid_until)

pub redeemable_effect :
    (now : ℕ) (key : Bytes) (c : PublisherCoordinator) (p : PaymentState)
    → redeemable now key c ≡ ok p
    → IsRedeemable now key c p
unfolding redeemable
redeemable_effect now key c p h = elim (Option-cases (lookup key c.stores)) [
  | inl e ↦ absurd (ground (arith, h, e))
  | inr (t, e) ↦ (t, e, ground (arith, h, e), ground (arith, h, e), ground (arith, h, e))
]

-- The outcome of a settlement with `given`: no call and an error, or the calls for one state.
abbrev pub Outcome {ℓ} :
    (E : Type ℓ)
    → Adapter
    → ℕ
    → Bytes
    → PublisherCoordinator
    → Bool
    → List ChainCall × Result E (Unit {0})
    → Type ℓ
Outcome E adapter now key c given x =
    ((e : E) × (x ≡ ([], err e)))
    ⊎ ((p : PaymentState) × IsRedeemable now key c p
        × IsSigned key p
        × Redeems E adapter key p given x.0 x.1)
