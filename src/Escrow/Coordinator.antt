-- ===== src/Escrow/Coordinator.antt =====
-- availability/escrow-payment/coordinator: publisher.go and sign_only.go. A time is a number of
-- nanoseconds since 1970. The coordinator's mutex makes every method one step, and the signer is a
-- parameter. A call of the chain adapters is written down, with their answers as a parameter.
use cipher.Prelude.{
  ℕ, ◌+◌, ◌*◌, ◌/◌, ◌%◌, ◌^◌, leb, ltb, Bool, false, not, ◌||◌, ◌&&◌, Option, none, some, List, [],
  ◌∷◌, ◌++◌, Bytes, is_empty, lookup, insert, Result, ok, err, if◌then◌else◌,
}
use cipher.Prelude.Int.{ℤ, pos, is_positive, pos_part}
use cipher.Availability.Types.{AvailabilityResult}
use cipher.Escrow.Bindings.{
  BindingError, EthereumAddress, EscrowContractId, Registry, new_registry, bind_provider,
  bind_contract, provider_address, escrow_id, address_string, escrow_string,
}
use cipher.Escrow.Payment.{
  PaymentError, PaymentState, StateSigner, PaymentStateStore, empty_store, is_pass,
  create_payment_state, store_payment_state, Adapter, ChainCall, settled, submit_payment_state,
}

pub data CoordinatorError : Type 0 where
  missing_parts invalid_ttl not_pass_result no_escrow_binding no_provider_address : CoordinatorError
  no_store stale_state no_stored_state state_expired no_settler : CoordinatorError
  binding_failed : BindingError → CoordinatorError
  payment_failed submit_failed settle_failed : PaymentError → CoordinatorError

-- The signer and the submitter are not nil; of the settler it is kept whether it is set.
pub record PublisherCoordinator : Type 0 where
  pub publisher_id : Bytes
  pub payment_state_ttl : ℤ
  pub has_settler : Bool
  pub bindings : Registry
  pub stores : List (Bytes × PaymentStateStore)

-- NewPublisherCoordinator; the flags say whether the signer and the submitter are given.
unfoldable pub new_publisher_coordinator :
    Bytes → Bool → Bool → Result CoordinatorError PublisherCoordinator
unfolding new_registry
new_publisher_coordinator publisher_id has_signer has_submitter =
    if is_empty publisher_id || not has_signer || not has_submitter
    then err missing_parts
    else ok (record {
      publisher_id = publisher_id;
      payment_state_ttl = pos (24 * 3600 * 10 ^ 9);
      has_settler = false;
      bindings = new_registry;
      stores = [];
    })

-- SetPaymentStateTTL
unfoldable pub set_payment_state_ttl :
    ℤ → PublisherCoordinator → PublisherCoordinator × Result CoordinatorError (Unit {0})
set_payment_state_ttl ttl c =
    if not (is_positive ttl)
    then (c, err invalid_ttl)
    else (record c { payment_state_ttl = ttl }, ok tt)

-- SetSettler
unfoldable pub set_settler : Bool → PublisherCoordinator → PublisherCoordinator
set_settler given c = record c { has_settler = given }

-- PublisherCoordinator.RegisterProvider
unfoldable pub register_provider :
    Bytes
    → EthereumAddress
    → PublisherCoordinator
    → PublisherCoordinator × Result CoordinatorError (Unit {0})
register_provider provider_id address c =
    let (r, bound) = bind_provider provider_id address c.bindings in
    (record c { bindings = r }, elim bound [ ok u ↦ ok u | err e ↦ err (binding_failed e) ])

-- `if _, exists := c.stores[escrowID]; !exists`
abbrev pub with_store : Bytes → List (Bytes × PaymentStateStore) → List (Bytes × PaymentStateStore)
with_store escrow_key stores = elim (lookup escrow_key stores) [
  | none ↦ insert escrow_key empty_store stores
  | some s ↦ stores
]

-- PublisherCoordinator.RegisterContract
unfoldable pub register_contract :
    Bytes
    → EscrowContractId
    → PublisherCoordinator
    → PublisherCoordinator × Result CoordinatorError (Unit {0})
register_contract contract_id escrow_contract_id c =
    let (r, bound) = bind_contract contract_id escrow_contract_id c.bindings in
    elim bound [
      | err e ↦ (record c { bindings = r }, err (binding_failed e))
      | ok u ↦ (
        record c { bindings = r; stores = with_store (escrow_string escrow_contract_id) c.stores },
        ok tt,
      )
    ]

-- ProviderAddressFor
unfoldable pub provider_address_for : AvailabilityResult → PublisherCoordinator → Option Bytes
provider_address_for result c = elim (provider_address result.provider_id c.bindings) [
  | none ↦ none
  | some address ↦ some (address_string address)
]

-- uint64(c.currentTime().Add(c.paymentStateTTL).Unix())
abbrev pub valid_until_of : ℕ → ℤ → ℕ
valid_until_of now ttl = (now + pos_part ttl) / 10 ^ 9 % 2 ^ 64

-- The check of the new state against the stored one.
abbrev pub is_old : ℕ → ℕ → PaymentStateStore → Bool
is_old sequence cumulative_payment s =
    s.has_state
    && (leb sequence s.latest.sequence || ltb cumulative_payment s.latest.cumulative_payment)

-- The answer of the store is the end of CreateAndSignPaymentState.
unfoldable pub commit_signed :
    Bytes
    → PaymentState
    → PublisherCoordinator
    → PaymentStateStore × Result PaymentError (Unit {0})
    → PublisherCoordinator × Result CoordinatorError PaymentState
commit_signed escrow_key signed c (s, err e) = (c, err (payment_failed e))
commit_signed escrow_key signed c (s, ok u) =
    (record c { stores = insert escrow_key s c.stores }, ok signed)

-- What follows the signing: store, commit.
unfoldable pub store_signed :
    Bytes
    → PaymentStateStore
    → PublisherCoordinator
    → Result PaymentError PaymentState
    → PublisherCoordinator × Result CoordinatorError PaymentState
store_signed escrow_key s c (err e) = (c, err (payment_failed e))
store_signed escrow_key s c (ok signed) =
    commit_signed escrow_key signed c (store_payment_state signed s)

module _ (signer : StateSigner) where
  -- CreateAndSignPaymentState once the escrow id, the provider's address and the store are found.
  unfoldable pub authorize :
      ℕ
      → AvailabilityResult
      → ℕ
      → ℕ
      → Bytes
      → EthereumAddress
      → PaymentStateStore
      → PublisherCoordinator
      → PublisherCoordinator × Result CoordinatorError PaymentState
  authorize now result cumulative_payment sequence escrow_key address s c =
      if is_old sequence cumulative_payment s
      then (c, err stale_state)
      else elim (create_payment_state (record result { provider_id = address_string address })
          c.publisher_id cumulative_payment sequence) [
            | err e ↦ (c, err (payment_failed e))
            | ok state ↦ store_signed escrow_key s c (
                signer.sign (record state {
                  contract_id = escrow_key;
                  valid_until = valid_until_of now c.payment_state_ttl;
                }))
          ]

  -- CreateAndSignPaymentState
  unfoldable pub create_and_sign_payment_state :
      ℕ
      → AvailabilityResult
      → ℕ
      → ℕ
      → PublisherCoordinator
      → PublisherCoordinator × Result CoordinatorError PaymentState
  create_and_sign_payment_state now result cumulative_payment sequence c =
      if not (is_pass result.result)
      then (c, err not_pass_result)
      else if not (is_positive c.payment_state_ttl)
      then (c, err invalid_ttl)
      else elim (escrow_id result.contract_id c.bindings) [
        | none ↦ (c, err no_escrow_binding)
        | some escrow ↦ elim (provider_address result.provider_id c.bindings) [
          | none ↦ (c, err no_provider_address)
          | some address ↦ elim (lookup (escrow_string escrow) c.stores) [
            | none ↦ (c, err no_store)
            | some s ↦
                authorize now result cumulative_payment sequence (escrow_string escrow) address s c
          ]
        ]
      ]

-- The stored state that may go on the chain at `now`.
unfoldable pub redeemable : ℕ → Bytes → PublisherCoordinator → Result CoordinatorError PaymentState
redeemable now escrow_key c = elim (lookup escrow_key c.stores) [
  | none ↦ err no_stored_state
  | some s ↦
      if not s.has_state
      then err no_stored_state
      else if leb s.latest.valid_until (now / 10 ^ 9 % 2 ^ 64)
      then err state_expired
      else ok s.latest
]

-- SubmitLatestPaymentStateOnChain
unfoldable pub submit_latest_payment_state_on_chain :
    Adapter → ℕ → Bytes → PublisherCoordinator → List ChainCall × Result CoordinatorError (Unit {0})
submit_latest_payment_state_on_chain adapter now escrow_key c = elim (redeemable now escrow_key c) [
  | err e ↦ ([], err e)
  | ok state ↦
      let (calls, r) = submit_payment_state (some adapter) escrow_key state in
      (calls, elim r [ err e ↦ err (payment_failed e) | ok u ↦ ok u ])
]

-- The second step of SettleContractOnChain, with the calls of the first.
abbrev pub settle_after :
    Adapter
    → Bytes
    → PaymentState
    → List ChainCall × Result PaymentError (Unit {0})
    → List ChainCall × Result CoordinatorError (Unit {0})
settle_after adapter escrow_key state (calls, err e) = (calls, err (submit_failed e))
settle_after adapter escrow_key state (calls, ok u) = (
  calls ++ (settled escrow_key state ∷ []),
  elim (adapter (settled escrow_key state)) [ err e ↦ err (settle_failed e) | ok u ↦ ok u ],
)

-- SettleContractOnChain
unfoldable pub settle_contract_on_chain :
    Adapter → ℕ → Bytes → PublisherCoordinator → List ChainCall × Result CoordinatorError (Unit {0})
settle_contract_on_chain adapter now escrow_key c =
    if not c.has_settler then ([], err no_settler) else elim (redeemable now escrow_key c) [
      | err e ↦ ([], err e)
      | ok state ↦
          settle_after adapter escrow_key state
            (submit_payment_state (some adapter) escrow_key state)
    ]
