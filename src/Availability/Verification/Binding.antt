-- ===== src/Availability/Verification/Binding.antt =====
-- What an accepted Merkle proof of verifier.go binds, and what it does not.
use native.Mathlib.Nat.{pow-suc}
use cipher.Prelude.{
  Option-cases, ℕ, suc, ◌+◌, ◌/◌, ◌%◌, ◌^◌, ◌==◌, ◌≡◌, ◌≢◌, ◌⊎◌, inl, inr, refl, sym, ◌∙◌, not,
  true, List, [], ◌∷◌, ◌++◌, Bytes, bytes_eq, bytes_eq_iff, bytes_eq→eq, length, some, none,
  if◌then◌else◌, arith, Bool-cases, append_injective_left, append_injective_right,
}
use cipher.Prelude.Int.{pos}
use cipher.Availability.Verification.{climb, verify_merkle_proof}

module _ (sha256 : Bytes → Bytes) where
  -- Two different inputs with one digest.
  abbrev pub Collision : Type 0
  Collision = (x : Bytes) × (y : Bytes) × (x ≢ y) × (sha256 x ≡ sha256 y)

  same_input : (x y : Bytes) → sha256 x ≡ sha256 y → (x ≡ y) ⊎ Collision
  same_input x y h = elim (Bool-cases (bytes_eq x y)) [
    | inl e ↦ inl (bytes_eq→eq x y e)
    | inr n ↦ inr (x, y, (λ e. ground (arith, bytes_eq_iff x y)), h)
  ]

  same_node :
      (a b s t : Bytes)
      → length a ≡ length b
      → sha256 (a ++ s) ≡ sha256 (b ++ t)
      → (a ≡ b) ⊎ Collision
  same_node a b s t size h = elim (same_input (a ++ s) (b ++ t) h) [
    | inl e ↦ inl (append_injective_left a b s t size e)
    | inr c ↦ inr c
  ]

  same_node_right :
      (a b s t : Bytes)
      → length s ≡ length t
      → sha256 (s ++ a) ≡ sha256 (t ++ b)
      → (a ≡ b) ⊎ Collision
  same_node_right a b s t size h = elim (same_input (s ++ a) (t ++ b) h) [
    | inl e ↦ inl (append_injective_right s t a b size e)
    | inr c ↦ inr c
  ]

  -- The node above `current`, by the parity of its index.
  parent : Bytes → ℕ → Bytes → Bytes
  parent current i sibling =
      if i % 2 == 0 then sha256 (current ++ sibling) else sha256 (sibling ++ current)

  climb-cons :
      (a s r : Bytes) (i : ℕ) (p : List Bytes)
      → climb sha256 a i (s ∷ p) ≡ some r
      → (length s ≡ 32) × (climb sha256 (parent a i s) (i / 2) p ≡ some r)
  unfolding climb parent
  climb-cons a s r i p h = ground arith

  parent-binds :
      (a b s t : Bytes) (i : ℕ)
      → length a ≡ length b
      → length s ≡ length t
      → parent a i s ≡ parent b i t
      → (a ≡ b) ⊎ Collision
  unfolding parent
  parent-binds a b s t i size size' h = elim (Bool-cases (i % 2 == 0)) [
    | inl e ↦ same_node a b s t size (ground arith)
    | inr e ↦ same_node_right a b s t size' (ground arith)
  ]

  module _ (digest_size : (b : Bytes) → length (sha256 b) ≡ 32) where
    length-parent : (a s : Bytes) (i : ℕ) → length (parent a i s) ≡ 32
    unfolding parent
    length-parent a s i = ground (arith, digest_size (a ++ s), digest_size (s ++ a))

    climb-binds :
        (p q : List Bytes) (i : ℕ) (a b r : Bytes)
        → length p ≡ length q
        → length a ≡ length b
        → climb sha256 a i p ≡ some r
        → climb sha256 b i q ≡ some r
        → (a ≡ b) ⊎ Collision
    climb-binds [] [] i a b r h size e f = inl (unfold climb in cc)
    climb-binds [] (t ∷ q) i a b r h size e f = absurd (omega arith)
    climb-binds (s ∷ p) [] i a b r h size e f = absurd (omega arith)
    climb-binds (s ∷ p) (t ∷ q) i a b r h size e f =
        let (ls, up) = climb-cons a s r i p e in
        let (lt', up') = climb-cons b t r i q f in
        elim (climb-binds p q (i / 2) (parent a i s) (parent b i t) r (omega arith)
          (length-parent a s i ∙ sym (length-parent b t i)) up up') [
            | inl same ↦ parent-binds a b s t i size (omega arith) same
            | inr c ↦ inr c
          ]

    verify-climb :
        (a root : Bytes) (i : ℕ) (p : List Bytes)
        → verify_merkle_proof sha256 a (pos i) p root ≡ true
        → (length a ≡ 32) × (climb sha256 a i p ≡ some root)
    unfolding verify_merkle_proof
    verify-climb a root i p h = elim (Option-cases (climb sha256 a i p)) [
      | inl n ↦ ground arith
      | inr (r, e) ↦ ground (arith, bytes_eq_iff r root)
    ]

    -- If every digest has 32 bytes: two leaf hashes that are accepted against one root, at one index and with audit paths of one
    -- length, are the same, or a collision of SHA-256 is at hand.
    pub verify_merkle_proof-binds :
        (a b root : Bytes) (i : ℕ) (p q : List Bytes)
        → length p ≡ length q
        → verify_merkle_proof sha256 a (pos i) p root ≡ true
        → verify_merkle_proof sha256 b (pos i) q root ≡ true
        → (a ≡ b) ⊎ Collision
    verify_merkle_proof-binds a b root i p q h e f =
        let (la, ca) = verify-climb a root i p e in
        let (lb, cb) = verify-climb b root i q f in climb-binds p q i a b root h (la ∙ sym lb) ca cb

  shifted_half : (i k : ℕ) → (i + 2 ^ suc k) / 2 ≡ i / 2 + 2 ^ k
  shifted_half i k = omega (arith, pow-suc 2 k)

  shifted_parity : (i k : ℕ) → (i + 2 ^ suc k) % 2 ≡ i % 2
  shifted_parity i k = omega (arith, pow-suc 2 k)

  parent-shift : (a s : Bytes) (i k : ℕ) → parent a (i + 2 ^ suc k) s ≡ parent a i s
  unfolding parent
  parent-shift a s i k = rw (shifted_parity i k)

  climb_step :
      (a s : Bytes) (i : ℕ) (p : List Bytes)
      → climb sha256 a i (s ∷ p)
        ≡ (if not (length s == 32) then none else climb sha256 (parent a i s) (i / 2) p)
  unfolding climb parent
  climb_step a s i p = refl

  climb-shift :
      (a : Bytes) (i : ℕ) (p : List Bytes)
      → climb sha256 a (i + 2 ^ length p) p ≡ climb sha256 a i p
  climb-shift a i [] = unfold climb in refl
  climb-shift a i (s ∷ p) =
      let k = length p in
      climb_step a s (i + 2 ^ suc k) p
      ∙ rw (shifted_half i k, parent-shift a s i k, climb-shift (parent a i s) (i / 2) p)
          (sym (climb_step a s i p))

  -- The index is read only up to the length of the audit path: a proof that is accepted at an index
  -- is accepted at that index plus 2 to the length of the path too.
  pub verify_merkle_proof_shifts :
      (a root : Bytes) (i : ℕ) (p : List Bytes)
      → verify_merkle_proof sha256 a (pos (i + 2 ^ length p)) p root
        ≡ verify_merkle_proof sha256 a (pos i) p root
  unfolding verify_merkle_proof
  verify_merkle_proof_shifts a root i p = rw climb-shift
