-- ===== src/Availability/Merkle/Proofs.antt =====
-- The proofs of integration/availability/merkle.go are accepted by verifier.go.
use cipher.Prelude.{
  ℕ, zero, suc, ◌+◌, ◌-◌, ◌/◌, ◌%◌, ◌≤◌, ◌<◌, ◌==◌, leb, true, not, ◌≡◌, refl, ◌∙◌, List, [], ◌∷◌,
  ◌++◌, Bytes, length, length-append, get_or, get_or-append_left, All, All-get_or, All-append, ok,
  if◌then◌else◌, some, arith, Bool-cases, inl, inr, bytes_eq_refl,
}
use cipher.Prelude.Int.{pos}
use cipher.Availability.Verification.{climb, verify_merkle_proof}
use cipher.Availability.Merkle.{
  MerkleTree, pad, parents, levels_above, top, new_merkle_tree, siblings, sibling_index,
  generate_proof, first_bad,
}

abbrev pub IsDigest : Bytes → Type 0
IsDigest h = length h ≡ 32

pad_even : (nodes : List Bytes) → length (pad nodes) % 2 ≡ 0
unfolding pad
pad_even nodes = ground (arith, length-append nodes (get_or nodes (length nodes - 1) [] ∷ []))

length-pad :
    (nodes : List Bytes)
    → (length nodes ≤ length (pad nodes)) × (length (pad nodes) ≤ length nodes + 1)
unfolding pad
length-pad nodes = ground (arith, length-append nodes (get_or nodes (length nodes - 1) [] ∷ []))

pad_same :
    (nodes : List Bytes) (i : ℕ) → i < length nodes → get_or (pad nodes) i [] ≡ get_or nodes i []
unfolding pad
pad_same nodes i h =
    ground (arith, get_or-append_left nodes (get_or nodes (length nodes - 1) [] ∷ []) i [])

pad-IsDigest :
    (nodes : List Bytes) → 0 < length nodes → All IsDigest nodes → All IsDigest (pad nodes)
unfolding pad
pad-IsDigest nodes p h = elim (Bool-cases (not (length nodes % 2 == 0))) [
  | inl e ↦
      rw e (All-append IsDigest nodes _ h (All-get_or IsDigest nodes _ [] h (omega arith), tt))
  | inr e ↦ rw e h
]

sibling_index-lt : (i n : ℕ) → i < n → n % 2 ≡ 0 → sibling_index i < n
unfolding sibling_index
sibling_index-lt i n h e = ground arith

sibling_index-suc-suc : (i : ℕ) → sibling_index (suc (suc i)) ≡ suc (suc (sibling_index i))
unfolding sibling_index
sibling_index-suc-suc i = ground arith

half-suc-suc : (i : ℕ) → suc (suc i) / 2 ≡ suc (i / 2)
half-suc-suc i = omega arith

mod-suc-suc : (i : ℕ) → suc (suc i) % 2 ≡ i % 2
mod-suc-suc i = omega arith

module _ (sha256 : Bytes → Bytes) where
  length-parents : (nodes : List Bytes) → length (parents sha256 nodes) ≡ length nodes / 2
  unfolding parents
  length-parents [] = refl
  length-parents (x ∷ []) = refl
  length-parents (x ∷ y ∷ rest) = omega (arith, length-parents rest)

  -- A node's parent is the hash of the node and its sibling, in the order of their places.
  get_or-parents :
      (nodes : List Bytes) (i : ℕ)
      → length nodes % 2 ≡ 0
      → i < length nodes
      → get_or (parents sha256 nodes) (i / 2) [] ≡ (
          if i % 2 == 0
          then sha256 (get_or nodes i [] ++ get_or nodes (sibling_index i) [])
          else sha256 (get_or nodes (sibling_index i) [] ++ get_or nodes i []))
  unfolding parents
  get_or-parents [] i e h = absurd (omega arith)
  get_or-parents (x ∷ []) i e h = absurd (omega arith)
  get_or-parents (x ∷ y ∷ rest) zero e h = unfold sibling_index in refl
  get_or-parents (x ∷ y ∷ rest) (suc zero) e h = unfold sibling_index in refl
  get_or-parents (x ∷ y ∷ rest) (suc (suc i)) e h =
      rw (half-suc-suc, mod-suc-suc, sibling_index-suc-suc)
        (get_or-parents rest i (omega arith) (omega arith))

  module _ (digest_size : (b : Bytes) → IsDigest (sha256 b)) where
    parents-IsDigest : (nodes : List Bytes) → All IsDigest (parents sha256 nodes)
    unfolding parents
    parents-IsDigest [] = tt
    parents-IsDigest (x ∷ []) = tt
    parents-IsDigest (x ∷ y ∷ rest) = (digest_size (x ++ y), parents-IsDigest rest)

    -- One round of the verifier's loop goes from a node to its parent.
    climb_round :
        (level next : List Bytes) (rest : List (List Bytes)) (i : ℕ)
        → All IsDigest level
        → i < length level
        → next ≡ parents sha256 (pad level)
        → climb sha256 (get_or level i []) i (siblings i (level ∷ next ∷ rest))
          ≡ climb sha256 (get_or next (i / 2) []) (i / 2) (siblings (i / 2) (next ∷ rest))
    unfolding climb siblings
    climb_round level next rest i h p e =
        let size = length-pad level in
        let q : i < length (pad level) = omega (arith, size) in
        let sib = sibling_index-lt i (length (pad level)) q (pad_even level) in
        ground (
          arith,
          All-get_or IsDigest (pad level) (sibling_index i) [] (pad-IsDigest level (omega arith) h)
              sib,
          get_or-parents (pad level) i (pad_even level) q,
          pad_same level i p,
        )

    climb-levels :
        (fuel : ℕ) (level : List Bytes) (i : ℕ)
        → All IsDigest level
        → i < length level
        → length level ≤ fuel
        → climb sha256 (get_or level i []) i (siblings i (level ∷ levels_above sha256 fuel level))
          ≡ some (top sha256 level (levels_above sha256 fuel level))
    unfolding levels_above top
    climb-levels zero level i h p q = absurd (omega arith)
    climb-levels (suc fuel) level i h p q =
        let size = length-pad level in
        let even = pad_even level in
        let count = length-parents (pad level) in
        elim (Bool-cases (leb (length level) 1)) [
          | inl e ↦ let z : i ≡ 0 = ground arith in rw (e, z) (unfold climb siblings in refl)
          | inr e ↦ rw e (
              climb_round level _ _ i h p refl
              ∙ climb-levels fuel (parents sha256 (pad level)) (i / 2)
                  (parents-IsDigest (pad level)) (omega (arith, size, count, even))
                  (ground (arith, size, count, even)))
        ]

    first_bad-ok : (i : ℕ) (hs : List Bytes) → first_bad i hs ≡ ok tt → All IsDigest hs
    unfolding first_bad
    first_bad-ok i [] e = tt
    first_bad-ok i (h ∷ hs) e = (ground arith, first_bad-ok (i + 1) hs (ground arith))

    top-IsDigest :
        (fuel : ℕ) (level : List Bytes)
        → All IsDigest level
        → 0 < length level
        → IsDigest (top sha256 level (levels_above sha256 fuel level))
    unfolding levels_above top
    top-IsDigest zero level h p = All-get_or IsDigest level 0 [] h p
    top-IsDigest (suc fuel) level h p =
        let size = length-pad level in
        let even = pad_even level in
        let count = length-parents (pad level) in
        elim (Bool-cases (leb (length level) 1)) [
          | inl e ↦ rw e (All-get_or IsDigest level 0 [] h p)
          | inr e ↦ rw e (
              top-IsDigest fuel (parents sha256 (pad level)) (parents-IsDigest (pad level))
                (ground (arith, size, count, even)))
        ]

    -- A built tree has its leaves as the lowest level, and its root on top.
    new_merkle_tree-levels :
        (x : Bytes) (xs : List Bytes) {m : MerkleTree}
        → new_merkle_tree sha256 (x ∷ xs) ≡ ok m
        → All IsDigest (x ∷ xs)
          × (m.leaves ≡ x ∷ xs)
          × (m.levels ≡ (x ∷ xs) ∷ levels_above sha256 (length (x ∷ xs)) (x ∷ xs))
          × (m.root ≡ top sha256 (x ∷ xs) (levels_above sha256 (length (x ∷ xs)) (x ∷ xs)))
    unfolding new_merkle_tree
    new_merkle_tree-levels x xs e =
        (first_bad-ok 0 (x ∷ xs) (ground arith), ground arith, ground arith, ground arith)

    generate_proof-siblings :
        (x : Bytes) (xs : List Bytes) (i : ℕ) (m : MerkleTree)
        → i < length (x ∷ xs)
        → m.leaves ≡ x ∷ xs
        → m.levels ≡ (x ∷ xs) ∷ levels_above sha256 (length (x ∷ xs)) (x ∷ xs)
        → generate_proof m (pos i) ≡ ok (siblings i m.levels)
    unfolding generate_proof
    generate_proof-siblings x [] i m h leaves levels =
        rw (leaves, levels) (unfold levels_above in ground arith)
    generate_proof-siblings x (y ∷ ys) i m h leaves levels = ground arith

    -- If every digest has 32 bytes: every proof that a tree built from `leaves` gives for a leaf is accepted by the verifier
    -- against the tree's root, for that leaf and index; and a proof is given for every index.
    pub generate_proof-verifies :
        (leaves : List Bytes) (i : ℕ) {m : MerkleTree}
        → new_merkle_tree sha256 leaves ≡ ok m
        → i < length leaves
        → (proof : List Bytes) × (generate_proof m (pos i) ≡ ok proof)
          × (verify_merkle_proof sha256 (get_or leaves i []) (pos i) proof m.root ≡ true)
    unfolding verify_merkle_proof
    generate_proof-verifies [] i e h = absurd (omega arith)
    generate_proof-verifies (x ∷ xs) i {m} e h =
        let (digests, leaves, levels, root) = new_merkle_tree-levels x xs e in
        let n = length (x ∷ xs) in
        (
          siblings i m.levels,
          generate_proof-siblings x xs i m h leaves levels,
          rw levels (
              ground (
                arith,
                root,
                All-get_or IsDigest (x ∷ xs) i [] digests h,
                top-IsDigest n (x ∷ xs) digests (omega arith),
                climb-levels n (x ∷ xs) i digests h (omega arith),
                bytes_eq_refl m.root,
              )),
        )
