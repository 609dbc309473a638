-- ===== src/Availability/Contract/Steps.antt =====
-- The operations of contract.go that add a contract or start a challenge keep every contract sound.
use cipher.Prelude.{
  ℕ, ◌≡◌, inl, inr, refl, true, not, ◌||◌, Option, none, some, List, Bytes, insert, is_empty, arith,
  Bool-cases,
}
use cipher.Prelude.Int.{ℤ, is_positive}
use cipher.Availability.Types.{AvailabilityContract, active, expired}
use cipher.Availability.Challenge.{Draws}
use cipher.Availability.Contract.Store.{System}
use cipher.Availability.Contract.Funding.{
  new_contract, create_resolved, create_availability_contract,
}
use cipher.Availability.Contract.Initiate.{register_challenge, initiate_availability_challenge}
use cipher.Availability.Contract.Invariant.{IsSound, AllSound, insert-AllSound, issued-insert}
use cipher.Availability.Contract.Initiation.{
  IsStartable, missing, refused, expires, fails, starts, initiate_outcome,
}

widen-AllSound :
    (k v : Bytes) (owners : List (Bytes × Bytes)) (m : List (Bytes × AvailabilityContract))
    → AllSound owners m
    → AllSound (insert k v owners) m
widen-AllSound k v owners m inv id c found =
    let h = inv id c found in
    record {
      named = h.named;
      priced = h.priced;
      resting = h.resting;
      unfunded = h.unfunded;
      funded = h.funded;
      idle = h.idle;
      issued = issued-insert k v owners c.results h.issued;
      once = h.once;
      mirrored = h.mirrored;
      settled = h.settled;
    }

IsStartable-expired :
    (owners : List (Bytes × Bytes)) (id : Bytes) (c : AvailabilityContract)
    → IsStartable c
    → IsSound owners id c
    → IsSound owners id (record c { state = expired })
IsStartable-expired owners id c able h = record {
  named = h.named;
  priced = h.priced;
  resting = refl;
  unfunded = λ z. cc;
  funded = λ z. able.paid;
  idle = λ z. cc;
  issued = h.issued;
  once = h.once;
  mirrored = h.mirrored;
  settled = λ z. cc;
}

IsStartable-active :
    (owners : List (Bytes × Bytes)) (id : Bytes) (c : AvailabilityContract) (ids : List Bytes)
    → IsStartable c
    → IsSound owners id c
    → IsSound owners id (record c { state = active; challenges = ids })
IsStartable-active owners id c ids able h = record {
  named = h.named;
  priced = h.priced;
  resting = refl;
  unfunded = λ z. cc;
  funded = λ z. able.paid;
  idle = λ z. cc;
  issued = h.issued;
  once = h.once;
  mirrored = h.mirrored;
  settled = λ z. cc;
}

new_contract-IsSound :
    (owners : List (Bytes × Bytes)) (id p q f : Bytes) (total amount duration : ℤ) (now : ℕ)
    → is_positive amount ≡ true
    → IsSound owners id (new_contract id p q f total amount duration now)
unfolding new_contract
new_contract-IsSound owners id p q f total amount duration now h = record {
  named = refl;
  priced = h;
  resting = refl;
  unfunded = λ z. refl;
  funded = λ z. cc;
  idle = λ y z. refl;
  issued = tt;
  once = tt;
  mirrored = tt;
  settled = λ z. cc;
}

-- Every contract in the store is sound.
abbrev pub Sound : System → Type 0
Sound s = AllSound s.challenges s.contracts

-- The part of the operation behind its first three guards.
resolved_step :
    (resolved : Option ℤ) (random_id : Option Bytes) (now : ℕ) (p q f : Bytes) (amount duration : ℤ)
    (s : System)
    → is_positive amount ≡ true
    → Sound s
    → Sound (create_resolved resolved random_id now p q f amount duration s).0
unfolding create_resolved
resolved_step none random_id now p q f amount duration s h inv = inv
resolved_step (some total) none now p q f amount duration s h inv =
    elim (Bool-cases (not (is_positive total))) [ inl a ↦ rw a inv | inr a ↦ rw a inv ]
resolved_step (some total) (some r) now p q f amount duration s h inv =
    elim (Bool-cases (not (is_positive total))) [
      | inl a ↦ rw a inv
      | inr a ↦ rw a (
          insert-AllSound s.challenges s.contracts _ _ inv
            (new_contract-IsSound s.challenges _ p q f total amount duration now h))
    ]

pub create-Sound :
    (resolved : Option ℤ) (random_id : Option Bytes) (now : ℕ) (p q f : Bytes) (amount duration : ℤ)
    (s : System)
    → Sound s
    → Sound (create_availability_contract resolved random_id now p q f amount duration s).0
unfolding create_availability_contract
create-Sound resolved random_id now p q f amount duration s inv =
    elim (Bool-cases (is_empty p || is_empty q || is_empty f)) [
      | inl a ↦ rw a inv
      | inr a ↦ rw a (elim (Bool-cases (not (is_positive amount) || not (is_positive duration))) [
        | inl b ↦ rw b inv
        | inr b ↦ rw b (elim (Bool-cases (not s.has_resolver)) [
          | inl e ↦ rw e inv
          | inr e ↦
              rw e (resolved_step resolved random_id now p q f amount duration s (ground arith) inv)
        ])
      ])
    ]

module _ (sha256 : Bytes → Bytes) where
  pub initiate-Sound :
      (d : Draws) (now : ℕ) (id : Bytes) (s : System)
      → Sound s
      → Sound (initiate_availability_challenge sha256 d now id s).0
  initiate-Sound d now id s inv = elim (initiate_outcome sha256 d now id s) [
    | missing n r ↦ rw r inv
    | refused c found unfit r ↦ rw r inv
    | expires c found able late r ↦ rw r (
        insert-AllSound s.challenges s.contracts id _ inv
          (IsStartable-expired s.challenges id c able (inv id c found)))
    | fails c e found able early epochs' q r ↦ rw r inv
    | starts c ch found able early epochs' q r ↦
        let inv' = widen-AllSound ch.challenge_id id s.challenges s.contracts inv in
        rw r (
          unfold register_challenge in
          insert-AllSound _ s.contracts id _ inv'
            (IsStartable-active _ id c _ able (inv' id c found)))
  ]
