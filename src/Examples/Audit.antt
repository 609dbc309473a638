-- ===== src/Examples/Audit.antt =====
-- The theorems on responses and Merkle proofs at concrete inputs.
use cipher.Prelude.{
  ℕ, ◌+◌, ◌^◌, ◌≡◌, ◌⊎◌, ◌↔◌, refl, Bool, true, false, List, [], ◌∷◌, ◌++◌, Bytes, bytes, ok, arith,
  length, get_or,
}
use cipher.Prelude.Int.{pos}
use cipher.Availability.Types.{Challenge}
use cipher.Availability.Verification.{
  ChallengeResponse, verify_merkle_proof, verify_challenge_response,
}
use cipher.Availability.Verification.Binding.{
  Collision, verify_merkle_proof-binds, verify_merkle_proof_shifts,
}
use cipher.Availability.Verification.Accepts.{Accepts, verify_challenge_response_iff}
use cipher.Availability.Merkle.{MerkleTree, new_merkle_tree, generate_proof}
use cipher.Availability.Merkle.Proofs.{generate_proof-verifies}
use cipher.Examples.StandIns.{zeros, checksum, digest, length-digest, signed_by}

abbrev leaf : ℕ → Bytes
leaf n = n ∷ zeros 31

abbrev leaves : List Bytes
leaves = leaf 1 ∷ leaf 2 ∷ []

abbrev tree : MerkleTree
tree = record {
  leaves = leaves;
  levels = leaves ∷ (digest (leaf 1 ++ leaf 2) ∷ []) ∷ [];
  root = digest (leaf 1 ++ leaf 2);
}

generate_proof-verifies_example :
    (proof : List Bytes) × (generate_proof tree (pos 1) ≡ ok proof)
    × (verify_merkle_proof digest (get_or leaves 1 []) (pos 1) proof tree.root ≡ true)
unfolding new_merkle_tree
generate_proof-verifies_example =
    generate_proof-verifies digest length-digest leaves 1 {m = tree} refl (omega arith)

abbrev root : Bytes
root = digest (leaf 1 ++ leaf 2)

verify_merkle_proof-binds_example : (leaf 1 ≡ leaf 1) ⊎ Collision digest
unfolding verify_merkle_proof cipher.Prelude.bytes_eq
verify_merkle_proof-binds_example =
    verify_merkle_proof-binds digest length-digest (leaf 1) (leaf 1) root 0 (leaf 2 ∷ [])
      (leaf 2 ∷ []) refl refl refl

verify_merkle_proof_shifts_example :
    verify_merkle_proof digest (leaf 1) (pos (0 + 2 ^ 1)) (leaf 2 ∷ []) root
    ≡ verify_merkle_proof digest (leaf 1) (pos 0) (leaf 2 ∷ []) root
verify_merkle_proof_shifts_example = verify_merkle_proof_shifts digest (leaf 1) root 0 (leaf 2 ∷ [])

abbrev challenge : Challenge
challenge = record {
  challenge_id = bytes "q";
  contract_id = bytes "c";
  provider_id = bytes "bob";
  file_id = bytes "song";
  epoch_id = bytes "e";
  chunk_id = pos 0;
  nonce = 4 ∷ [];
  challenge_counter = 0;
  round_number = 0;
  trigger_status = false;
  created_at = 10;
}

-- The answer of an honest provider, whose signature starts as the digest does.
abbrev response : ChallengeResponse
response = record {
  challenge_id = bytes "q";
  contract_id = bytes "c";
  provider_id = bytes "bob";
  file_id = bytes "song";
  chunk_id = pos 0;
  chunk_hash = leaf 1;
  merkle_proof = leaf 2 ∷ [];
  signature = checksum (leaf 1 ++ (4 ∷ bytes "q")) ∷ zeros 63;
  responded_at = 12;
}

verify_challenge_response_iff_example :
    (verify_challenge_response digest signed_by challenge response root (leaf 9) (pos 5) ≡ ok tt)
    ↔ Accepts digest signed_by challenge response root (leaf 9) (pos 5)
verify_challenge_response_iff_example =
    verify_challenge_response_iff digest signed_by challenge response root (leaf 9) (pos 5)

-- The answer is accepted.
response_accepted :
    verify_challenge_response digest signed_by challenge response root (leaf 9) (pos 5) ≡ ok tt
unfolding verify_challenge_response cipher.Prelude.bytes_eq cipher.Availability.Verification.is_late
    verify_merkle_proof cipher.Availability.Verification.check_signature
    cipher.Availability.Verification.compute_proof_digest
response_accepted = refl
