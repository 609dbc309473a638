-- ===== src/Escrow/Streak.antt =====
-- The failure streak of dispatcher.go: what keeping its recent records and adding one does to it.
use cipher.Prelude.{
  ℕ, zero, suc, ◌+◌, ◌-◌, ◌%◌, ◌^◌, ◌<◌, ◌≤◌, ◌≡◌, refl, subst, true, false, ◌==◌, ltb, Bool,
  Bool-cases, inl, inr, List, [], ◌∷◌, ◌++◌, Bytes, bytes_eq, bytes_eq_refl, length, drop,
  length-drop, All, arith,
}
use Prim.Native.Nat.{min}
use cipher.Escrow.FailRecord.{FailRecord, verify_fail_record, verify_after, verify_fail_streak}
use cipher.Escrow.Dispatcher.{keep_recent}

pub length-keep_recent :
    (k : ℕ) (xs : List FailRecord) → length (keep_recent k xs) ≡ min k (length xs)
unfolding keep_recent
length-keep_recent k xs = ground (arith, length-drop (length xs - k) xs)

module _ (sha256 : Bytes → Bytes) (ed25519_verify : Bytes → Bytes → Bytes → Bool) where
  -- The records are signed, of one escrow, and numbered from `n` on.
  abbrev pub Runs : Bytes → Bytes → ℕ → List FailRecord → Type 0
  Runs key escrow_key n [] = Unit {0}
  Runs key escrow_key n (r ∷ rs) =
      (verify_fail_record sha256 ed25519_verify r key ≡ true)
      × (r.escrow_contract_id ≡ escrow_key)
      × (r.sequence ≡ n)
      × Runs key escrow_key (n + 1) rs

  pub Runs-append :
      (key escrow_key : Bytes) (n : ℕ) (rs : List FailRecord) (r : FailRecord)
      → Runs key escrow_key n rs
      → verify_fail_record sha256 ed25519_verify r key ≡ true
      → r.escrow_contract_id ≡ escrow_key
      → r.sequence ≡ n + length rs
      → Runs key escrow_key n (rs ++ (r ∷ []))
  Runs-append key escrow_key n [] r h v e q = (v, e, omega arith, tt)
  Runs-append key escrow_key n (x ∷ xs) r h v e q =
      (h.0, h.1, h.2, Runs-append key escrow_key (n + 1) xs r h.3 v e (omega arith))

  pub Runs-drop :
      (key escrow_key : Bytes) (n i : ℕ) (rs : List FailRecord)
      → Runs key escrow_key n rs
      → Runs key escrow_key (n + i) (drop i rs)
  Runs-drop key escrow_key n zero rs h = subst (λ m. Runs key escrow_key m rs) (omega arith) h
  Runs-drop key escrow_key n (suc i) [] h = tt
  Runs-drop key escrow_key n (suc i) (r ∷ rs) h =
      subst (λ m. Runs key escrow_key m (drop i rs)) (omega arith)
        (Runs-drop key escrow_key (n + 1) i rs h.3)

  pub Runs-keep_recent :
      (key escrow_key : Bytes) (n k : ℕ) (rs : List FailRecord)
      → Runs key escrow_key n rs
      → Runs key escrow_key (n + (length rs - k)) (keep_recent k rs)
  unfolding keep_recent
  Runs-keep_recent key escrow_key n k rs h = elim (Bool-cases (ltb k (length rs))) [
    | inl b ↦ rw b (Runs-drop key escrow_key n (length rs - k) rs h)
    | inr b ↦ rw b (subst (λ m. Runs key escrow_key m rs) (ground arith) h)
  ]

  -- The records of a run behind another one verify when they all name its provider's address.
  verify_after-Runs :
      (key escrow_key address : Bytes) (n : ℕ) (prev : FailRecord) (rs : List FailRecord)
      → prev.escrow_contract_id ≡ escrow_key
      → prev.provider_eth_address ≡ address
      → prev.sequence + 1 ≡ n
      → n + length rs ≤ 2 ^ 64
      → Runs key escrow_key n rs
      → All (λ (r : FailRecord). r.provider_eth_address ≡ address) rs
      → verify_after sha256 ed25519_verify prev rs key ≡ true
  unfolding verify_after
  verify_after-Runs key escrow_key address n prev [] e a q b h same = refl
  verify_after-Runs key escrow_key address n prev (r ∷ rs) e a q b h same =
      let rest =
        verify_after-Runs key escrow_key address (n + 1) r rs h.1 same.0 (omega (arith, h.2))
          (omega arith) h.3 same.1 in
      let one : bytes_eq r.escrow_contract_id prev.escrow_contract_id ≡ true =
        rw (h.1, e) (bytes_eq_refl escrow_key) in
      let two : bytes_eq r.provider_eth_address prev.provider_eth_address ≡ true =
        rw (same.0, a) (bytes_eq_refl address) in
      let three : prev.sequence == 2 ^ 64 - 1 ≡ false = ground arith in
      let four : r.sequence == (prev.sequence + 1) % 2 ^ 64 ≡ true = ground (arith, h.2) in
      rw (h.0, one, two, three, four, rest) refl

  pub verify_fail_streak-Runs :
      (key escrow_key address : Bytes) (n : ℕ) (rs : List FailRecord)
      → 0 < length rs
      → n + length rs ≤ 2 ^ 64
      → Runs key escrow_key n rs
      → All (λ (r : FailRecord). r.provider_eth_address ≡ address) rs
      → verify_fail_streak sha256 ed25519_verify rs key ≡ true
  unfolding verify_fail_streak
  verify_fail_streak-Runs key escrow_key address n [] z b h same = absurd (omega arith)
  verify_fail_streak-Runs key escrow_key address n (r ∷ rs) z b h same = rw h.0 (
      verify_after-Runs key escrow_key address (n + 1) r rs h.1 same.0 (omega (arith, h.2))
        (omega arith) h.3 same.1)
