-- ===== src/Availability/Contract/Bodies.antt =====
-- Each operation of contract.go keeps the contract that it works on sound.
use native.Mathlib.Nat.{add-zero}
use cipher.Prelude.{
  subst, ℕ, ◌+◌, ◌≡◌, refl, true, false, ◌||◌, List, [], ◌∷◌, ◌++◌, Bytes, bytes_eq, bytes_eq_iff,
  length, All-append, arith, inl, inr,
}
use cipher.Prelude.Int.{ℤ}
use cipher.Availability.Types.{AvailabilityContract, AvailabilityResult, ChallengeResult, active}
use cipher.Availability.Contract.Funding.{fund}
use cipher.Availability.Contract.Record.{is_recorded, append_result, record_result, owns}
use cipher.Availability.Contract.Settle.{settle, terminate}
use cipher.Availability.Contract.Invariant.{IsSound, Distinct, Mirrors, is_known}
use cipher.Availability.Contract.Effects.{
  fund_effect, record_result_effect, settle_effect, terminate_effect,
}

pub fund-IsSound :
    (owners : List (Bytes × Bytes)) (id : Bytes) (amount : ℤ) (c : AvailabilityContract)
    → IsSound owners id c
    → IsSound owners id (fund amount c).0
fund-IsSound owners id amount c h = elim (fund_effect amount c) [
  | inl (e, q) ↦ rw q h
  | inr (a, b, q) ↦ rw q (record {
    named = h.named;
    priced = h.priced;
    resting = refl;
    unfunded = λ z. cc;
    funded = λ z. b;
    idle = λ z. cc;
    issued = h.issued;
    once = h.once;
    mirrored = h.mirrored;
    settled = λ z. cc;
  })
]

is_recorded-append :
    (k : Bytes) (rs : List ChallengeResult) (r : ChallengeResult)
    → is_recorded k (rs ++ (r ∷ [])) ≡ (is_recorded k rs || bytes_eq r.challenge_id k)
unfolding is_recorded
is_recorded-append k [] r = ground arith
is_recorded-append k (x ∷ rs) r = ground (arith, is_recorded-append k rs r)

Distinct-append :
    (rs : List ChallengeResult) (r : ChallengeResult)
    → Distinct rs
    → is_recorded r.challenge_id rs ≡ false
    → Distinct (rs ++ (r ∷ []))
unfolding is_recorded
Distinct-append [] r h n = (refl, tt)
Distinct-append (x ∷ rs) r h n = (
  ground (
    arith,
    is_recorded-append x.challenge_id rs r,
    bytes_eq_iff x.challenge_id r.challenge_id,
    bytes_eq_iff r.challenge_id x.challenge_id,
  ),
  Distinct-append rs r h.1 (ground arith),
)

Mirrors-append :
    (id provider : Bytes) (n : ℕ) (rs : List ChallengeResult) (xs : List AvailabilityResult)
    (r : ChallengeResult) (a : AvailabilityResult)
    → Mirrors id provider n rs xs
    → Mirrors id provider (n + length xs) (r ∷ []) (a ∷ [])
    → Mirrors id provider n (rs ++ (r ∷ [])) (xs ++ (a ∷ []))
Mirrors-append id provider n [] [] r a h last =
    subst (λ k. Mirrors id provider k (r ∷ []) (a ∷ [])) (add-zero n) last
Mirrors-append id provider n [] (x ∷ xs) r a h last = absurd h
Mirrors-append id provider n (q ∷ rs) [] r a h last = absurd h
Mirrors-append id provider n (q ∷ rs) (x ∷ xs) r a h last = (
  h.0,
  h.1,
  h.2,
  h.3,
  h.4,
  h.5,
  Mirrors-append id provider (n + 1) rs xs r a h.6
      (subst (λ k. Mirrors id provider k (r ∷ []) (a ∷ [])) (omega arith) last),
)

append_result-IsSound :
    (owners : List (Bytes × Bytes)) (id k : Bytes) (r : ChallengeResult) (now : ℕ)
    (c : AvailabilityContract)
    → IsSound owners id c
    → c.state ≡ active
    → owns id k owners ≡ true
    → is_recorded k c.results ≡ false
    → IsSound owners id (append_result id k r now c)
unfolding append_result
append_result-IsSound owners id k r now c h live own new = record {
  named = h.named;
  priced = h.priced;
  resting = h.resting;
  unfunded = h.unfunded;
  funded = h.funded;
  idle = λ z. cc;
  issued =
      All-append (λ q. is_known q.challenge_id owners ≡ true) c.results _ h.issued
        (ground arith, tt);
  once = Distinct-append c.results _ h.once new;
  mirrored =
      Mirrors-append id c.provider_id 1 c.results c.availability_results _ _ h.mirrored
        (refl, refl, ground arith, refl, refl, refl, tt);
  settled = λ z. cc;
}

pub record_result-IsSound :
    (owners : List (Bytes × Bytes)) (id k : Bytes) (r : ChallengeResult) (now : ℕ)
    (c : AvailabilityContract)
    → IsSound owners id c
    → IsSound owners id (record_result id k r now owners c).0
record_result-IsSound owners id k r now c h = elim (record_result_effect id k r now owners c) [
  | inl (e, q) ↦ rw q h
  | inr (a, b, n, q) ↦ rw q (append_result-IsSound owners id k r now c h a b n)
]

pub settle-IsSound :
    (owners : List (Bytes × Bytes)) (id : Bytes) (now now' : ℕ) (c : AvailabilityContract)
    → IsSound owners id c
    → IsSound owners id (settle now now' c).0
settle-IsSound owners id now now' c h = elim (settle_effect now now' c) [
  | inl (e, q) ↦ rw q h
  | inr (inl (st, a, d, q)) ↦ rw q (record {
    named = h.named;
    priced = h.priced;
    resting = ground arith;
    unfunded = λ z. ground arith;
    funded = λ z. h.funded (ground arith);
    idle = λ z. ground arith;
    issued = h.issued;
    once = h.once;
    mirrored = h.mirrored;
    settled = λ z. (st, (d, refl, refl, refl));
  })
  | inr (inr (st, e, a, d, q)) ↦ rw q (record {
    named = h.named;
    priced = h.priced;
    resting = h.resting;
    unfunded = h.unfunded;
    funded = h.funded;
    idle = h.idle;
    issued = h.issued;
    once = h.once;
    mirrored = h.mirrored;
    settled = λ z. cc;
  })
]

pub terminate-IsSound :
    (owners : List (Bytes × Bytes)) (id : Bytes) (now : ℕ) (c : AvailabilityContract)
    → IsSound owners id c
    → IsSound owners id (terminate now c).0
terminate-IsSound owners id now c h = elim (terminate_effect now c) [
  | inl (e, q) ↦ rw q h
  | inr (a, q) ↦ rw q (record {
    named = h.named;
    priced = h.priced;
    resting = refl;
    unfunded = λ z. cc;
    funded = λ z. cc;
    idle = λ y z. absurd (z refl);
    issued = h.issued;
    once = h.once;
    mirrored = h.mirrored;
    settled = λ z. cc;
  })
]
