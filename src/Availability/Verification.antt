-- ===== src/Availability/Verification.antt =====
-- availability/availability-contracts/verification/verifier.go: the proof that a provider still
-- holds a chunk. SHA-256 and Ed25519 are parameters.
pub mod Binding
pub mod Accepts
use cipher.Prelude.{
  ℕ, ◌+◌, ◌/◌, ◌%◌, ◌==◌, ltb, Bool, true, false, not, ◌||◌, List, [], ◌∷◌, ◌++◌, Bytes, bytes_eq,
  is_empty, length, Result, ok, err, if◌then◌else◌, refuse_if, ◌>>=◌, ◌>>◌, Option, none, some,
}
use cipher.Prelude.Int.{ℤ, pos, negsuc, is_positive, eq_ℤ, pos_part}
use cipher.Availability.Types.{Challenge, ChallengeResult}

pub record ChallengeResponse : Type 0 where
  pub challenge_id : Bytes
  pub contract_id : Bytes
  pub provider_id : Bytes
  pub file_id : Bytes
  pub chunk_id : ℤ
  pub chunk_hash : Bytes
  pub merkle_proof : List Bytes
  pub signature : Bytes
  pub responded_at : ℕ

pub data VerifyError : Type 0 where
  empty_challenge_id challenge_mismatch contract_mismatch provider_mismatch : VerifyError
  file_mismatch chunk_mismatch deadline_passed bad_root bad_merkle_proof : VerifyError
  bad_key_size bad_signature_size bad_signature : VerifyError

-- ed25519.PublicKeySize and ed25519.SignatureSize
abbrev public_key_size : ℕ
public_key_size = 32

abbrev signature_size : ℕ
signature_size = 64

module _ (sha256 : Bytes → Bytes) where
  -- ComputeProofDigest
  unfoldable pub compute_proof_digest : Bytes → Bytes → Bytes → Bytes
  compute_proof_digest chunk_hash nonce challenge_id =
      sha256 (chunk_hash ++ (nonce ++ challenge_id))

  -- The loop over `proof`; `none` is its early `return false`.
  unfoldable pub climb : Bytes → ℕ → List Bytes → Option Bytes
  climb current idx [] = some current
  climb current idx (sibling ∷ proof) =
      let parent =
        if idx % 2 == 0 then sha256 (current ++ sibling) else sha256 (sibling ++ current) in
      let rest = climb parent (idx / 2) proof in if not (length sibling == 32) then none else rest

  abbrev is_root : Bytes → Option Bytes → Bool
  is_root expected_root none = false
  is_root expected_root (some current) = bytes_eq current expected_root

  -- VerifyMerkleProof
  unfoldable pub verify_merkle_proof : Bytes → ℤ → List Bytes → Bytes → Bool
  unfolding climb
  verify_merkle_proof leaf_hash (negsuc n) proof expected_root = false
  verify_merkle_proof leaf_hash (pos idx) proof expected_root =
      if not (length leaf_hash == 32) || not (length expected_root == 32)
      then false
      else is_root expected_root (climb leaf_hash idx proof)

  module _ (ed25519_verify : Bytes → Bytes → Bytes → Bool) where
    -- The signature checks, made only if a key is given.
    unfoldable pub check_signature :
        Challenge → ChallengeResponse → Bytes → Result VerifyError (Unit {0})
    check_signature challenge response [] = ok tt
    check_signature challenge response (k ∷ ks) = do
      refuse_if (not (length (k ∷ ks) == public_key_size)) bad_key_size
      refuse_if (not (length response.signature == signature_size)) bad_signature_size
      refuse_if
          (not (
            ed25519_verify (k ∷ ks)
              (compute_proof_digest response.chunk_hash challenge.nonce challenge.challenge_id)
              response.signature))
          bad_signature

    -- `response.RespondedAt.After(deadline)`, for a positive timeout.
    unfoldable pub is_late : Challenge → ChallengeResponse → ℤ → Bool
    is_late challenge response max_timeout =
        if is_positive max_timeout
        then ltb (challenge.created_at + pos_part max_timeout) response.responded_at
        else false

    -- VerifyChallengeResponse; its `(true, nil)` is `ok tt`.
    unfoldable pub verify_challenge_response :
        Challenge → ChallengeResponse → Bytes → Bytes → ℤ → Result VerifyError (Unit {0})
    verify_challenge_response challenge response expected_root provider_key max_timeout = do
      refuse_if (is_empty challenge.challenge_id) empty_challenge_id
      refuse_if (not (bytes_eq response.challenge_id challenge.challenge_id)) challenge_mismatch
      refuse_if (not (bytes_eq response.contract_id challenge.contract_id)) contract_mismatch
      refuse_if (not (bytes_eq response.provider_id challenge.provider_id)) provider_mismatch
      refuse_if (not (bytes_eq response.file_id challenge.file_id)) file_mismatch
      refuse_if (not (eq_ℤ response.chunk_id challenge.chunk_id)) chunk_mismatch
      refuse_if (is_late challenge response max_timeout) deadline_passed
      refuse_if (not (length expected_root == 32)) bad_root
      refuse_if
          (not (
            verify_merkle_proof response.chunk_hash response.chunk_id response.merkle_proof
              expected_root))
          bad_merkle_proof
      check_signature challenge response provider_key

    abbrev succeeds : Result VerifyError (Unit {0}) → Bool
    succeeds (ok _) = true
    succeeds (err e) = false

    -- BuildChallengeResult
    unfoldable pub build_challenge_result :
        Challenge → ChallengeResponse → Bytes → Bytes → ℤ → ℕ → ChallengeResult
    build_challenge_result challenge response expected_root provider_key max_timeout now = record {
      challenge_id = challenge.challenge_id;
      succeeded =
          succeeds
            (verify_challenge_response challenge response expected_root provider_key max_timeout);
      recorded_at = now;
    }
