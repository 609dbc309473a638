-- ===== src/Escrow/Encoded.antt =====
-- The encodings of registry.go and of the payment package: what they lose.
use cipher.Prelude.{
  ◌^◌, ◌<◌, ◌≡◌, ◌≢◌, ◌⊎◌, refl, ap, Bool-cases, inl, inr, [], ◌++◌, ok, Bytes, bytes, bytes_eq,
  bytes_eq_refl, bytes_eq→eq, arith, length, All,
}
use cipher.Prelude.Encoding.{
  prefixed-injective, be_bytes-append_injective, hex_decode-hex_encode, length-hex_encode,
}
use cipher.Escrow.Bindings.{
  EthereumAddress, EscrowContractId, parse_ethereum_address, address_string,
  parse_escrow_contract_id, escrow_string,
}
use cipher.Escrow.Payment.{PaymentState, status_string, payment_payload, payment_state_digest}

-- ParseEthereumAddress reads back what EthereumAddress.String prints, and ParseEscrowContractID what
-- EscrowContractID.String prints: for 20 bytes and for 32.
pub parse-string :
    (address : EthereumAddress) (id : EscrowContractId)
    → length address ≡ 20
    → All (λ b. b < 256) address
    → length id ≡ 32
    → All (λ b. b < 256) id
    → (parse_ethereum_address (address_string address) ≡ ok address)
      × (parse_escrow_contract_id (escrow_string id) ≡ ok id)
unfolding parse_ethereum_address address_string parse_escrow_contract_id escrow_string
parse-string address id la ba li bi = (
  ground (
    arith,
    length-hex_encode address,
    hex_decode-hex_encode address ba,
    bytes_eq_refl (bytes "0x"),
    la,
  ),
  ground (arith, length-hex_encode id, hex_decode-hex_encode id bi, bytes_eq_refl (bytes "0x"), li),
)

-- The strings and numbers are those of Go: a length and a uint64 are below 2^64.
pub record Fits (p : PaymentState) : Type 0 where
  pub contract_size : length p.contract_id < 2 ^ 64
  pub publisher_size : length p.publisher < 2 ^ 64
  pub provider_size : length p.provider < 2 ^ 64
  pub sequence_size : p.sequence < 2 ^ 64
  pub period_size : p.period < 2 ^ 64
  pub payment_size : p.cumulative_payment < 2 ^ 64
  pub challenge_size : length p.last_challenge_id < 2 ^ 64
  pub expiry_size : p.valid_until < 2 ^ 64
  pub status_size : length (status_string p.status) < 2 ^ 64

-- Every field but the signature is the same.
abbrev pub SameTerms : PaymentState → PaymentState → Type 0
SameTerms p q =
    (p.contract_id ≡ q.contract_id)
    × (p.publisher ≡ q.publisher)
    × (p.provider ≡ q.provider)
    × (p.sequence ≡ q.sequence)
    × (p.period ≡ q.period)
    × (p.cumulative_payment ≡ q.cumulative_payment)
    × (p.last_challenge_id ≡ q.last_challenge_id)
    × (p.valid_until ≡ q.valid_until)
    × (status_string p.status ≡ status_string q.status)

payment_payload-injective :
    (p q : PaymentState) → Fits p → Fits q → payment_payload p ≡ payment_payload q → SameTerms p q
unfolding payment_payload
payment_payload-injective p q f g e =
    let (a, e₁) = prefixed-injective _ _ _ _ f.contract_size g.contract_size e in
    let (b, e₂) = prefixed-injective _ _ _ _ f.publisher_size g.publisher_size e₁ in
    let (c, e₃) = prefixed-injective _ _ _ _ f.provider_size g.provider_size e₂ in
    let (d, e₄) = be_bytes-append_injective _ _ _ _ f.sequence_size g.sequence_size e₃ in
    let (h, e₅) = be_bytes-append_injective _ _ _ _ f.period_size g.period_size e₄ in
    let (i, e₆) = be_bytes-append_injective _ _ _ _ f.payment_size g.payment_size e₅ in
    let (j, e₇) = prefixed-injective _ _ _ _ f.challenge_size g.challenge_size e₆ in
    let (k, e₈) = be_bytes-append_injective _ _ _ _ f.expiry_size g.expiry_size e₇ in
    let last = ap (λ (x : Bytes). x ++ []) e₈ in
    let (l, e₉) =
      prefixed-injective (status_string p.status) (status_string q.status) [] [] f.status_size
        g.status_size last in
    (a, b, c, d, h, i, j, k, l)

-- A payment state's digest fixes every field but the signature, of states that a Go PaymentState can
-- hold, or a collision of SHA-256 is at hand: the two payloads.
pub payment_state_digest-binds :
    (sha256 : Bytes → Bytes) (p q : PaymentState)
    → Fits p
    → Fits q
    → payment_state_digest sha256 p ≡ payment_state_digest sha256 q
    → SameTerms p q
      ⊎ ((x y : Bytes) × (x ≢ y)
          × (x ≡ payment_payload p)
          × (y ≡ payment_payload q)
          × (sha256 x ≡ sha256 y))
unfolding payment_state_digest
payment_state_digest-binds sha256 p q f g e =
    elim (Bool-cases (bytes_eq (payment_payload p) (payment_payload q))) [
      | inl h ↦ inl (payment_payload-injective p q f g (bytes_eq→eq _ _ h))
      | inr h ↦ inr (
        payment_payload p,
        payment_payload q,
        (λ same. cc (ap (bytes_eq (payment_payload p)) same, bytes_eq_refl (payment_payload p), h)),
        refl,
        refl,
        e,
      )
    ]
