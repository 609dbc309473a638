-- ===== src/Escrow/Forward.antt =====
-- Histories of the coordinator of publisher.go and sign_only.go: its latest states move forward.
use cipher.Prelude.{
  ℕ, ◌<◌, ◌≤◌, ◌≡◌, ◌⊎◌, refl, sym, ap, ◌∙◌, Bool-cases, if-cases, inl, inr, List, some, ok, not,
  Bytes, bytes_eq, bytes_eq→eq, arith, true, false, Bool, Result, Result-cases, Option-cases,
  lookup, insert, lookup-insert, lookup-insert_self,
}
use cipher.Prelude.Int.{ℤ, is_positive}
use cipher.Availability.Types.{AvailabilityResult}
use cipher.Escrow.Bindings.{EthereumAddress, EscrowContractId, bind_contract, escrow_string}
use cipher.Escrow.Payment.{PaymentState, PaymentStateStore, StateSigner, empty_store}
use cipher.Escrow.Coordinator.{
  CoordinatorError, PublisherCoordinator, set_payment_state_ttl, set_settler, register_provider,
  register_contract, with_store, create_and_sign_payment_state,
}
use cipher.Escrow.Outcomes.{create_refused}
use cipher.Escrow.Vouchers.{Voucher, create-Voucher}

-- A later state of a contract: the same, or one with a higher number that pays no less.
abbrev pub Follows : PaymentState → PaymentState → Type 0
Follows p q = (q ≡ p) ⊎ ((p.sequence < q.sequence) × (p.cumulative_payment ≤ q.cumulative_payment))

Follows-trans : (p q r : PaymentState) → Follows p q → Follows q r → Follows p r
Follows-trans p q r h k = ground arith

-- The latest state under the key follows `p`.
abbrev pub Past : Bytes → PaymentState → PublisherCoordinator → Type 0
Past key p c =
    (s : PaymentStateStore) × (lookup key c.stores ≡ some s)
    × (s.has_state ≡ true)
    × Follows p s.latest

with_store-lookup :
    (key k : Bytes) (s : PaymentStateStore) (stores : List (Bytes × PaymentStateStore))
    → lookup key stores ≡ some s
    → lookup key (with_store k stores) ≡ some s
with_store-lookup key k s stores h = elim (Option-cases (lookup k stores)) [
  | inl e ↦
      rw (e, with_store)
        (elim (Bool-cases (bytes_eq k key)) [
          | inl b ↦ absurd (let same = bytes_eq→eq k key b in cc)
          | inr b ↦ ground (arith, lookup-insert k key empty_store stores, b, h)
        ])
  | inr (t, e) ↦ rw (e, with_store) h
]

pair-eta :
    (x : PublisherCoordinator × Result CoordinatorError PaymentState)
    {r : Result CoordinatorError PaymentState}
    → x.1 ≡ r
    → x ≡ (x.0, r)
pair-eta x h = λ i. (x.0, h i)

some_injective : (a b : PaymentStateStore) → some a ≡ some b → a ≡ b
some_injective a b h = cc

-- A voucher goes beyond the state that it replaces.
beyond :
    (s : PaymentStateStore) (signed : PaymentState) (sequence cumulative : ℕ)
    → (s.has_state ≡ false)
      ⊎ ((s.latest.sequence < sequence) × (s.latest.cumulative_payment ≤ cumulative))
    → s.has_state ≡ true
    → (signed.sequence ≡ sequence) × (signed.cumulative_payment ≡ cumulative)
    → (s.latest.sequence < signed.sequence)
      × (s.latest.cumulative_payment ≤ signed.cumulative_payment)
beyond s signed sequence cumulative (inl e) h q = absurd (cc)
beyond s signed sequence cumulative (inr e) h q = omega (arith, e, q)

module _ (signer : StateSigner) where
  pub data Step : PublisherCoordinator → PublisherCoordinator → Type 0 where
    ttl : (t : ℤ) (c : PublisherCoordinator) → Step c (set_payment_state_ttl t c).0
    settler : (given : Bool) (c : PublisherCoordinator) → Step c (set_settler given c)
    provider :
        (id : Bytes) (a : EthereumAddress) (c : PublisherCoordinator)
        → Step c (register_provider id a c).0
    contract :
        (id : Bytes) (e : EscrowContractId) (c : PublisherCoordinator)
        → Step c (register_contract id e c).0
    create :
        (now : ℕ) (result : AvailabilityResult) (cumulative sequence : ℕ) (c : PublisherCoordinator)
        → Step c (create_and_sign_payment_state signer now result cumulative sequence c).0

  pub data Run : PublisherCoordinator → PublisherCoordinator → Type 0 where
    stay : (c : PublisherCoordinator) → Run c c
    more : (c c' c'' : PublisherCoordinator) → Run c c' → Step c' c'' → Run c c''

  Voucher-Past :
      (key : Bytes) (p : PaymentState) (now : ℕ) (result : AvailabilityResult)
      (cumulative sequence : ℕ) (c c' : PublisherCoordinator) (signed : PaymentState)
      → Voucher now result cumulative sequence c c' signed
      → Past key p c
      → Past key p c'
  Voucher-Past key p now result cumulative sequence c c' signed v (s, l, h, f) =
      let key' = escrow_string v.escrow in
      let now_stored : c'.stores
          ≡ insert key' (record { latest = signed; has_state = true }) c.stores =
        ap (λ (x : PublisherCoordinator). x.stores) v.stored in
      let sent : (signed.sequence ≡ sequence) × (signed.cumulative_payment ≡ cumulative) = (
        ap (λ (x : PaymentState). x.sequence) v.states,
        ap (λ (x : PaymentState). x.cumulative_payment) v.states,
      ) in
      elim (Bool-cases (bytes_eq key' key)) [
        | inl b ↦
            let same = bytes_eq→eq key' key b in
            let before : v.before ≡ s = some_injective _ _ (sym (rw same at v.found) ∙ l) in
            (
              record { latest = signed; has_state = true },
              rw (now_stored, same) (lookup-insert_self key _ c.stores),
              refl,
              Follows-trans p s.latest signed f
                  (inr (beyond s signed sequence cumulative (rw before at v.forward) h sent)),
            )
        | inr b ↦ (
          s,
          rw now_stored (
              ground (
                arith,
                lookup-insert key' key (record { latest = signed; has_state = true }) c.stores,
                b,
                l,
              )),
          h,
          f,
        )
      ]

  register_contract-stores :
      (id : Bytes) (e : EscrowContractId) (c : PublisherCoordinator)
      → ((register_contract id e c).0.stores ≡ c.stores)
        ⊎ ((register_contract id e c).0.stores ≡ with_store (escrow_string e) c.stores)
  unfolding register_contract
  register_contract-stores id e c = elim (Result-cases (bind_contract id e c.bindings).1) [
    | inl (x, h) ↦ inl (rw (h, register_contract) refl)
    | inr (u, h) ↦ inr (rw (h, register_contract) refl)
  ]

  Step-Past :
      (key : Bytes) (p : PaymentState) {c c' : PublisherCoordinator}
      → Step c c'
      → Past key p c
      → Past key p c'
  unfolding set_payment_state_ttl set_settler register_provider
  Step-Past key p (ttl t c) (s, l, k, f) =
      if-cases (λ (x : PublisherCoordinator × Result CoordinatorError (Unit {0})). Past key p x.0)
        (not (is_positive t)) _ _ (λ e. (s, l, k, f)) (λ e. (s, l, k, f))
  Step-Past key p (settler given c) h = h
  Step-Past key p (provider id a c) h = h
  Step-Past key p (contract id e c) (s, l, h, f) = elim (register_contract-stores id e c) [
    | inl same ↦ (s, rw same l, h, f)
    | inr grown ↦ (s, rw grown (with_store-lookup key (escrow_string e) s c.stores l), h, f)
  ]
  Step-Past key p (create now result cumulative sequence c) h =
      elim (Result-cases
        (create_and_sign_payment_state signer now result cumulative sequence c).1) [
          | inl (e, k) ↦
              rw (create_refused signer now result cumulative sequence c _ e (pair-eta _ k)) h
          | inr (signed, k) ↦
              Voucher-Past key p now result cumulative sequence c _ signed
                (create-Voucher signer now result cumulative sequence c _ signed (pair-eta _ k)) h
        ]

  Run-Past :
      (key : Bytes) (p : PaymentState) {c c' : PublisherCoordinator}
      → Run c c'
      → Past key p c
      → Past key p c'
  Run-Past key p (stay c) h = h
  Run-Past key p (more c c' c'' r s) h = Step-Past key p s (Run-Past key p r h)

  -- Once a payment state is signed, and after any calls of the coordinator, the latest state of its
  -- escrow contract is that state, or one with a higher sequence number that pays no less.
  pub create-Follows :
      (now : ℕ) (result : AvailabilityResult) (cumulative sequence : ℕ)
      (c c' c'' : PublisherCoordinator) (signed : PaymentState)
      → create_and_sign_payment_state signer now result cumulative sequence c ≡ (c', ok signed)
      → Run c' c''
      → (s : PaymentStateStore) × (lookup signed.contract_id c''.stores ≡ some s)
        × (s.has_state ≡ true)
        × Follows signed s.latest
  create-Follows now result cumulative sequence c c' c'' signed h r =
      let v = create-Voucher signer now result cumulative sequence c c' signed h in
      let key = ap (λ (x : PaymentState). x.contract_id) v.states in
      let now_stored = ap (λ (x : PublisherCoordinator). x.stores) v.stored in
      Run-Past signed.contract_id signed r (
        record { latest = signed; has_state = true },
        rw (now_stored, key) (lookup-insert_self (escrow_string v.escrow) _ c.stores),
        refl,
        inl refl,
      )
