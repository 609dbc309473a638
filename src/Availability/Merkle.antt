-- ===== src/Availability/Merkle.antt =====
-- integration/availability/merkle.go: the tree that a provider proves its chunks with.
pub mod Proofs
use cipher.Prelude.{
  ℕ, zero, suc, ◌+◌, ◌-◌, ◌/◌, ◌%◌, ◌==◌, leb, ltb, Bool, true, false, not, ◌||◌, List, [], ◌∷◌,
  ◌++◌, Bytes, length, get_or, Result, ok, err, if◌then◌else◌, map,
}
use cipher.Prelude.Int.{ℤ, pos, negsuc}

pub data MerkleError : Type 0 where
  no_leaves out_of_bounds : MerkleError
  bad_leaf : ℕ → MerkleError

pub record MerkleTree : Type 0 where
  pub leaves : List Bytes
  pub levels : List (List Bytes)
  pub root : Bytes

-- The index of the first leaf whose length is not 32.
first_bad : ℕ → List Bytes → Result MerkleError (Unit {0})
first_bad i [] = ok tt
first_bad i (h ∷ hs) =
    let rest = first_bad (i + 1) hs in if not (length h == 32) then err (bad_leaf i) else rest

-- An odd level has its last node twice.
unfoldable pub pad : List Bytes → List Bytes
pad nodes =
    if not (length nodes % 2 == 0)
    then nodes ++ (get_or nodes (length nodes - 1) [] ∷ [])
    else nodes

module _ (sha256 : Bytes → Bytes) where
  -- HashPair
  unfoldable pub hash_pair : Bytes → Bytes → Bytes
  hash_pair left right = sha256 (left ++ right)

  -- The inner loop over a padded level, which has an even length.
  unfoldable pub parents : List Bytes → List Bytes
  unfolding hash_pair
  parents [] = []
  parents (x ∷ []) = []
  parents (x ∷ y ∷ rest) = hash_pair x y ∷ parents rest

  -- The levels above `level`, by the outer loop: it ends when one node is left. Each round halves
  -- the level, so the number of leaves is enough fuel.
  unfoldable pub levels_above : ℕ → List Bytes → List (List Bytes)
  unfolding parents pad
  levels_above zero level = []
  levels_above (suc fuel) level =
      let next = parents (pad level) in
      let rest = next ∷ levels_above fuel next in if leb (length level) 1 then [] else rest

  -- `currentLevel[0]` after the loop.
  unfoldable pub top : List Bytes → List (List Bytes) → Bytes
  top level [] = get_or level 0 []
  top level (next ∷ rest) = top next rest

  -- NewMerkleTree. A single leaf is its own root, as the loop would leave it.
  unfoldable pub new_merkle_tree : List Bytes → Result MerkleError MerkleTree
  unfolding levels_above top first_bad
  new_merkle_tree [] = err no_leaves
  new_merkle_tree (h ∷ hs) = elim (first_bad 0 (h ∷ hs)) [
    | err e ↦ err e
    | ok _ ↦
        let leaves = h ∷ hs in
        let above = levels_above (length leaves) leaves in
        if length leaves == 1
        then ok (record { leaves = leaves; levels = leaves ∷ []; root = h })
        else ok (record { leaves = leaves; levels = leaves ∷ above; root = top leaves above })
  ]

  -- BuildMerkleTreeFromChunks
  unfoldable pub build_merkle_tree_from_chunks : List Bytes → Result MerkleError MerkleTree
  unfolding new_merkle_tree
  build_merkle_tree_from_chunks [] = err no_leaves
  build_merkle_tree_from_chunks (c ∷ cs) = new_merkle_tree (map sha256 (c ∷ cs))

-- An even index has its sibling behind it, an odd one before it.
unfoldable pub sibling_index : ℕ → ℕ
sibling_index idx = if idx % 2 == 0 then idx + 1 else idx - 1

-- The loop of GenerateProof over every level but the last.
unfoldable pub siblings : ℕ → List (List Bytes) → List Bytes
unfolding pad sibling_index
siblings idx [] = []
siblings idx (top ∷ []) = []
siblings idx (level ∷ next ∷ rest) =
    get_or (pad level) (sibling_index idx) [] ∷ siblings (idx / 2) (next ∷ rest)

-- GenerateProof
unfoldable pub generate_proof : MerkleTree → ℤ → Result MerkleError (List Bytes)
unfolding siblings
generate_proof m (negsuc n) = err out_of_bounds
generate_proof m (pos idx) =
    if leb (length m.leaves) idx
    then err out_of_bounds
    else if length m.leaves == 1
    then ok []
    else ok (siblings idx m.levels)
