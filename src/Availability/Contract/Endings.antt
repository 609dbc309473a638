-- ===== src/Availability/Contract/Endings.antt =====
-- How contracts of contract.go end: what can no longer happen to them.
use cipher.Prelude.{
  ℕ, ◌≡◌, inl, inr, refl, Bool, true, false, not, ◌||◌, Option, none, some, List, ◌++◌, Bytes,
  bytes, bytes_eq, bytes_eq→eq, subst, lookup, insert, lookup-insert, is_empty, arith, Bool-cases,
  Option-cases,
}
use cipher.Prelude.Int.{ℤ, is_positive}
use cipher.Prelude.Encoding.{hex_encode}
use cipher.Availability.Verification.{build_challenge_result}
use cipher.Availability.Types.{
  AvailabilityContract, ChallengeResult, ContractState, is_terminal, completed, terminated,
}
use cipher.Availability.Challenge.{Draws}
use cipher.Availability.Contract.Store.{System, Body, with_contract}
use cipher.Availability.Contract.Funding.{
  create_resolved, create_availability_contract, configure_chunk_count_resolver, fund,
  fund_availability_contract,
}
use cipher.Availability.Contract.Initiate.{register_challenge, initiate_availability_challenge}
use cipher.Availability.Contract.Record.{
  record_result, record_availability_result, verify_and_record_challenge_response,
}
use cipher.Availability.Contract.Settle.{
  settle, settle_availability_contract, terminate, terminate_availability_contract,
}
use cipher.Availability.Contract.Invariant.{with_contract-none, with_contract-some}
use cipher.Availability.Contract.Effects.{
  fund_effect, record_result_effect, settle_effect, terminate_effect,
}
use cipher.Availability.Contract.Initiation.{
  IsStartable, missing, refused, expires, fails, starts, initiate_outcome,
}
use cipher.Availability.Contract.History.{
  Call, configure, create, fund_contract, initiate, record_one, verify_and_record, settle_contract,
  terminate_contract, perform,
}

-- The states that no operation leaves.
abbrev pub is_over : ContractState → Bool
is_over completed = true
is_over terminated = true
is_over _ = false

module _ (id : Bytes) (c : AvailabilityContract) where
  -- An operation on any contract leaves this one, if it does nothing to it.
  with_contract-keeps :
      {A : Type 0} (j : Bytes) (body : Body A) (s : System)
      → (body c).0 ≡ c
      → lookup id s.contracts ≡ some c
      → lookup id (with_contract j body s).0.contracts ≡ some c
  with_contract-keeps j body s same found = elim (Option-cases (lookup j s.contracts)) [
    | inl n ↦ rw (with_contract-none j body s n) found
    | inr (d, there) ↦ rw (with_contract-some j body s d there) (elim (Bool-cases (bytes_eq j id)) [
      | inl e ↦
          let p : j ≡ id = bytes_eq→eq j id e in
          let q : d ≡ c = ground (arith, subst (λ k. lookup k s.contracts ≡ some d) p there) in
          rw (lookup-insert, e, q, same) refl
      | inr e ↦ rw (lookup-insert, e) found
    ])
  ]

  module _ (over : is_over c.state ≡ true) where
    fund-over : (amount : ℤ) → (fund amount c).0 ≡ c
    fund-over amount = elim (fund_effect amount c) [
      | inl (e, q) ↦ rw q
      | inr (a, b, q) ↦ absurd (ground arith)
    ]

    record_result-over :
        (j k : Bytes) (r : ChallengeResult) (now : ℕ) (owners : List (Bytes × Bytes))
        → (record_result j k r now owners c).0 ≡ c
    record_result-over j k r now owners = elim (record_result_effect j k r now owners c) [
      | inl (e, q) ↦ rw q
      | inr (a, b, n, q) ↦ absurd (ground arith)
    ]

    settle-over : (now now' : ℕ) → (settle now now' c).0 ≡ c
    settle-over now now' = elim (settle_effect now now' c) [
      | inl (e, q) ↦ rw q
      | inr (inl (st, a, d, q)) ↦ absurd (ground arith)
      | inr (inr (st, e, a, d, q)) ↦ absurd (ground arith)
    ]

    terminate-over : (now : ℕ) → (terminate now c).0 ≡ c
    terminate-over now = elim (terminate_effect now c) [
      | inl (e, q) ↦ rw q
      | inr (a, q) ↦ absurd (unfold is_terminal in ground arith)
    ]

    not_startable_over : IsStartable c → ⊥
    not_startable_over able = ground (arith, able.live)

    insert_elsewhere :
        (j : Bytes) (d d' : AvailabilityContract) (m : List (Bytes × AvailabilityContract))
        → lookup id m ≡ some c
        → lookup j m ≡ some d
        → IsStartable d
        → lookup id (insert j d' m) ≡ some c
    insert_elsewhere j d d' m found there able = elim (Bool-cases (bytes_eq j id)) [
      | inl e ↦
          let q : d ≡ c =
            ground (arith, subst (λ k. lookup k m ≡ some d) (bytes_eq→eq j id e) there) in
          absurd (not_startable_over (subst IsStartable q able))
      | inr e ↦ rw (lookup-insert, e) found
    ]

    initiate-over :
        (sha256 : Bytes → Bytes) (d : Draws) (now : ℕ) (j : Bytes) (s : System)
        → lookup id s.contracts ≡ some c
        → lookup id (initiate_availability_challenge sha256 d now j s).0.contracts ≡ some c
    initiate-over sha256 d now j s found = elim (initiate_outcome sha256 d now j s) [
      | missing n r ↦ rw r found
      | refused x there unfit r ↦ rw r found
      | expires x there able late r ↦ rw r (insert_elsewhere j x _ s.contracts found there able)
      | fails x e there able early epochs' q r ↦ rw r found
      | starts x ch there able early epochs' q r ↦
          rw r (unfold register_challenge in insert_elsewhere j x _ s.contracts found there able)
    ]

    resolved-over :
        (resolved : Option ℤ) (random_id : Option Bytes) (now : ℕ) (p q f : Bytes)
        (amount duration : ℤ) (s : System)
        → ((r : Bytes)
            → random_id ≡ some r
            → bytes_eq (bytes "contract-" ++ hex_encode r) id ≡ false)
        → lookup id s.contracts ≡ some c
        → lookup id (create_resolved resolved random_id now p q f amount duration s).0.contracts
          ≡ some c
    unfolding create_resolved
    resolved-over none random_id now p q f amount duration s fresh found = found
    resolved-over (some total) none now p q f amount duration s fresh found =
        elim (Bool-cases (not (is_positive total))) [ inl a ↦ rw a found | inr a ↦ rw a found ]
    resolved-over (some total) (some r) now p q f amount duration s fresh found =
        elim (Bool-cases (not (is_positive total))) [
          | inl a ↦ rw a found
          | inr a ↦ rw (a, lookup-insert, fresh r refl) found
        ]

    create-over :
        (resolved : Option ℤ) (random_id : Option Bytes) (now : ℕ) (p q f : Bytes)
        (amount duration : ℤ) (s : System)
        → ((r : Bytes)
            → random_id ≡ some r
            → bytes_eq (bytes "contract-" ++ hex_encode r) id ≡ false)
        → lookup id s.contracts ≡ some c
        → lookup id
            (create_availability_contract resolved random_id now p q f amount duration
              s).0.contracts
          ≡ some c
    unfolding create_availability_contract
    create-over resolved random_id now p q f amount duration s fresh found =
        elim (Bool-cases (is_empty p || is_empty q || is_empty f)) [
          | inl a ↦ rw a found
          | inr a ↦
              rw a (elim (Bool-cases (not (is_positive amount) || not (is_positive duration))) [
                | inl b ↦ rw b found
                | inr b ↦ rw b (elim (Bool-cases (not s.has_resolver)) [
                  | inl e ↦ rw e found
                  | inr e ↦
                      rw e
                        (resolved-over resolved random_id now p q f amount duration s fresh found)
                ])
              ])
        ]

-- A call does not draw the identifier `id` for a new contract.
abbrev pub IsFreshFor : Bytes → Call → Type 0
IsFreshFor id (create _ random_id _ _ _ _ _ _) =
    (r : Bytes) → random_id ≡ some r → bytes_eq (bytes "contract-" ++ hex_encode r) id ≡ false
IsFreshFor id _ = Unit

module _ (sha256 : Bytes → Bytes) (ed25519_verify : Bytes → Bytes → Bytes → Bool) where
  -- A completed or terminated contract is final: no operation of the module, called on any
  -- contract, changes it, as long as a new contract does not draw its identifier.
  pub perform-final :
      (id : Bytes) (c : AvailabilityContract) (call : Call) (s : System)
      → is_over c.state ≡ true
      → IsFreshFor id call
      → lookup id s.contracts ≡ some c
      → lookup id (perform sha256 ed25519_verify call s).contracts ≡ some c
  unfolding perform
  perform-final id c (configure true) s over fresh found =
      unfold configure_chunk_count_resolver in found
  perform-final id c (configure false) s over fresh found =
      unfold configure_chunk_count_resolver in found
  perform-final id c (create resolved random_id now p q f amount duration) s over fresh found =
      create-over id c over resolved random_id now p q f amount duration s fresh found
  perform-final id c (fund_contract j amount) s over fresh found =
      unfold fund_availability_contract in
      with_contract-keeps id c j (fund amount) s (fund-over id c over amount) found
  perform-final id c (initiate d now j) s over fresh found =
      initiate-over id c over sha256 d now j s found
  perform-final id c (record_one now j k r) s over fresh found =
      unfold record_availability_result in
      with_contract-keeps id c j (record_result j k r now s.challenges) s
        (record_result-over id c over j k r now s.challenges) found
  perform-final id c (verify_and_record now now' j ch r root key t) s over fresh found =
      unfold verify_and_record_challenge_response record_availability_result in
      with_contract-keeps id c j
        (record_result j ch.challenge_id
          (build_challenge_result sha256 ed25519_verify ch r root key t now) now' s.challenges)
        s
        (record_result-over id c over j ch.challenge_id
          (build_challenge_result sha256 ed25519_verify ch r root key t now) now' s.challenges)
        found
  perform-final id c (settle_contract now now' j) s over fresh found =
      unfold settle_availability_contract in
      with_contract-keeps id c j (settle now now') s (settle-over id c over now now') found
  perform-final id c (terminate_contract now j) s over fresh found =
      unfold terminate_availability_contract in
      with_contract-keeps id c j (terminate now) s (terminate-over id c over now) found
