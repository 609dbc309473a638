-- ===== src/Escrow/FailRecord.antt =====
-- The failure records of availability/escrow-payment/coordinator/dispatcher.go.
use cipher.Prelude.{
  ℕ, ◌+◌, ◌-◌, ◌%◌, ◌^◌, Bool, true, false, not, ◌||◌, ◌==◌, List, [], ◌∷◌, ◌++◌, Bytes, bytes,
  bytes_eq, length, if◌then◌else◌,
}
use cipher.Prelude.Encoding.{be_bytes, prefixed}

-- `issued_at` is in nanoseconds since 1970.
pub record FailRecord : Type 0 where
  pub escrow_contract_id : Bytes
  pub provider_eth_address : Bytes
  pub challenge_id : Bytes
  pub period : ℕ
  pub sequence : ℕ
  pub issued_at : ℕ
  pub publisher_signature : Bytes

abbrev pub fail_record_domain_tag : Bytes
fail_record_domain_tag = bytes "CIPHER_FAIL_RECORD_V1"

-- buildFailRecordPayload
unfoldable pub build_fail_record_payload : FailRecord → Bytes
build_fail_record_payload rec =
    prefixed fail_record_domain_tag
    ++ (prefixed rec.escrow_contract_id
        ++ (prefixed rec.provider_eth_address
            ++ (prefixed rec.challenge_id
                ++ (be_bytes 8 rec.period
                    ++ (be_bytes 8 rec.sequence ++ be_bytes 8 (rec.issued_at % 2 ^ 64))))))

module _ (sha256 : Bytes → Bytes) where
  -- The two lines of buildAndSignFailRecord that sign.
  unfoldable pub sign_fail_record : (Bytes → Bytes → Bytes) → Bytes → FailRecord → FailRecord
  sign_fail_record ed25519_sign signer_key rec = record rec {
    publisher_signature = ed25519_sign signer_key (sha256 (build_fail_record_payload rec));
  }

  module _ (ed25519_verify : Bytes → Bytes → Bytes → Bool) where
    -- VerifyFailRecord
    unfoldable pub verify_fail_record : FailRecord → Bytes → Bool
    verify_fail_record rec public_key =
        if not (length public_key == 32)
        then false
        else if not (length rec.publisher_signature == 64)
        then false
        else ed25519_verify public_key (sha256 (build_fail_record_payload rec))
            rec.publisher_signature

    -- The comparison of a record with the one before it.
    abbrev pub follows : FailRecord → FailRecord → Bool
    follows prev rec = not (
        not (bytes_eq rec.escrow_contract_id prev.escrow_contract_id)
        || not (bytes_eq rec.provider_eth_address prev.provider_eth_address)
        || prev.sequence == 2 ^ 64 - 1
        || not (rec.sequence == (prev.sequence + 1) % 2 ^ 64))

    -- The loop of VerifyFailStreak behind a first record.
    unfoldable pub verify_after : FailRecord → List FailRecord → Bytes → Bool
    verify_after prev [] public_key = true
    verify_after prev (rec ∷ recs) public_key =
        let rest = verify_after rec recs public_key in
        if not (verify_fail_record rec public_key)
        then false
        else if not (follows prev rec)
        then false
        else rest

    -- VerifyFailStreak
    unfoldable pub verify_fail_streak : List FailRecord → Bytes → Bool
    verify_fail_streak [] public_key = false
    verify_fail_streak (rec ∷ recs) public_key =
        if not (verify_fail_record rec public_key) then false else verify_after rec recs public_key
