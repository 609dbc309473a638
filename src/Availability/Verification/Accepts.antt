-- ===== src/Availability/Verification/Accepts.antt =====
-- Exactly which responses verifier.go accepts.
use cipher.Prelude.{
  refl, ◌∷◌, ℕ, ◌+◌, ◌≤◌, ◌<◌, ◌≡◌, ◌≢◌, ◌↔◌, [], Bytes, bytes_eq_iff, bytes_eq_refl, length, Bool,
  true, false, ok, arith,
}
use cipher.Prelude.Int.{ℤ, pos, negsuc}
use cipher.Availability.Types.{Challenge}
use cipher.Availability.Verification.{
  ChallengeResponse, compute_proof_digest, verify_merkle_proof, check_signature, is_late,
  verify_challenge_response,
}

module _ (sha256 : Bytes → Bytes) (ed25519_verify : Bytes → Bytes → Bytes → Bool) where
  -- What the publisher relies on when a response passes.
  pub record Accepts (c : Challenge) (r : ChallengeResponse) (root key : Bytes) (max_timeout : ℤ)
      : Type 0 where
    pub issued : c.challenge_id ≢ []
    pub same_challenge : r.challenge_id ≡ c.challenge_id
    pub same_contract : r.contract_id ≡ c.contract_id
    pub same_provider : r.provider_id ≡ c.provider_id
    pub same_file : r.file_id ≡ c.file_id
    pub same_chunk : r.chunk_id ≡ c.chunk_id
    pub in_time : (n : ℕ) → max_timeout ≡ pos n → 0 < n → r.responded_at ≤ c.created_at + n
    pub root_size : length root ≡ 32
    pub in_tree : verify_merkle_proof sha256 r.chunk_hash r.chunk_id r.merkle_proof root ≡ true
    pub signed :
        key ≢ []
        → (length key ≡ 32)
          × (length r.signature ≡ 64)
          × (ed25519_verify key
                (compute_proof_digest sha256 r.chunk_hash c.nonce c.challenge_id)
                r.signature
              ≡ true)

  in_time_iff :
      (c : Challenge) (r : ChallengeResponse) (t : ℤ)
      → (is_late sha256 ed25519_verify c r t ≡ false)
        ↔ ((n : ℕ) → t ≡ pos n → 0 < n → r.responded_at ≤ c.created_at + n)
  unfolding is_late
  in_time_iff c r t = (
    λ h n e p. ground arith,
    λ h.
        elim t as (λ t'. t ≡ t' → is_late sha256 ed25519_verify c r t' ≡ false) [
          | pos n ↦ λ e. ground (arith, h n e)
          | negsuc n ↦ λ e. refl
        ]
          refl,
  )

  check_signature_iff :
      (c : Challenge) (r : ChallengeResponse) (key : Bytes)
      → (check_signature sha256 ed25519_verify c r key ≡ ok tt) ↔ (
          key ≢ []
          → (length key ≡ 32)
            × (length r.signature ≡ 64)
            × (ed25519_verify key
                  (compute_proof_digest sha256 r.chunk_hash c.nonce c.challenge_id)
                  r.signature
                ≡ true))
  unfolding check_signature
  check_signature_iff c r [] = (λ h n. absurd (n refl), λ h. refl)
  check_signature_iff c r (k ∷ ks) = (λ h n. ground arith, λ h. ground (arith, h (λ e. cc)))

  module _ (c : Challenge) (r : ChallengeResponse) (root key : Bytes) (max_timeout : ℤ) where
    accepted :
        verify_challenge_response sha256 ed25519_verify c r root key max_timeout ≡ ok tt
        → Accepts c r root key max_timeout
    unfolding verify_challenge_response
    accepted h = record {
      issued = λ e. ground arith;
      same_challenge = ground (arith, bytes_eq_iff r.challenge_id c.challenge_id);
      same_contract = ground (arith, bytes_eq_iff r.contract_id c.contract_id);
      same_provider = ground (arith, bytes_eq_iff r.provider_id c.provider_id);
      same_file = ground (arith, bytes_eq_iff r.file_id c.file_id);
      same_chunk = ground arith;
      in_time = (in_time_iff c r max_timeout).0 (ground arith);
      root_size = ground arith;
      in_tree = ground arith;
      signed = (check_signature_iff c r key).0 (ground arith);
    }

    accepts :
        Accepts c r root key max_timeout
        → verify_challenge_response sha256 ed25519_verify c r root key max_timeout ≡ ok tt
    unfolding verify_challenge_response
    accepts h =
        let timely = (in_time_iff c r max_timeout).1 h.in_time in
        let sealed = (check_signature_iff c r key).1 h.signed in
        let nonempty = h.issued in
        ground (
          arith,
          h.same_challenge,
          h.same_contract,
          h.same_provider,
          h.same_file,
          h.same_chunk,
          h.root_size,
          h.in_tree,
          bytes_eq_refl c.challenge_id,
          bytes_eq_refl c.contract_id,
          bytes_eq_refl c.provider_id,
          bytes_eq_refl c.file_id,
        )

    -- A response is accepted exactly when it is for the issued challenge, in time, carries a Merkle
    -- proof of its chunk hash against a 32-byte root, and, if a key is given, a signature of the
    -- challenge's proof digest under that key.
    pub verify_challenge_response_iff :
        (verify_challenge_response sha256 ed25519_verify c r root key max_timeout ≡ ok tt)
        ↔ Accepts c r root key max_timeout
    verify_challenge_response_iff = (accepted, accepts)
