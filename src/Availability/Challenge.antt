-- ===== src/Availability/Challenge.antt =====
-- availability/availability-contracts/challenge/challenge.go and randomness.go: one challenge in an
-- epoch. SHA-256 is a parameter; what `rand.Read` returns and the clock are arguments.
use cipher.Prelude.{
  ℕ, ◌==◌, not, ◌||◌, Option, none, some, ◌∷◌, ◌++◌, Bytes, bytes, is_empty, Result, ok, err,
  if◌then◌else◌,
}
use cipher.Prelude.Int.{ℤ, pos}
use cipher.Prelude.Encoding.{hex_encode, be_bytes, decimal}
use cipher.Availability.Types.{Challenge}
use cipher.Availability.Epoch.{
  EpochStore, EpochError, create_epoch, select_uncovered_chunk, get_epoch_state,
  check_round_trigger,
}

pub data ChallengeError : Type 0 where
  missing_ids missing_epoch_id no_entropy : ChallengeError
  counter_mismatch : ℕ → ℕ → ChallengeError
  create_epoch_failed get_state_failed select_failed : EpochError → ChallengeError

-- What one call takes from its surroundings: two reads of random bytes and two of the clock.
pub record Draws : Type 0 where
  pub random_id : Option Bytes
  pub random_nonce : Option Bytes
  pub epoch_time : ℕ
  pub challenge_time : ℕ

-- GenerateNonce
unfoldable pub generate_nonce : Option Bytes → Bytes → Result ChallengeError Bytes
generate_nonce random_nonce epoch_id =
    if is_empty epoch_id
    then err missing_epoch_id
    else elim random_nonce [ none ↦ err no_entropy | some nonce ↦ ok nonce ]

module _ (sha256 : Bytes → Bytes) where
  -- GenerateChunkHash
  unfoldable pub generate_chunk_hash : Bytes → Bytes → Bytes → ℕ → Bytes → Bytes
  generate_chunk_hash provider_id file_id epoch_id challenge_counter nonce = sha256 (
      provider_id
      ++ (file_id ++ (epoch_id ++ (be_bytes 8 challenge_counter ++ (nonce ++ bytes "CHUNK")))))

  -- GenerateRoundHash
  unfoldable pub generate_round_hash : Bytes → Bytes → Bytes → ℕ → Bytes → ℕ → Bytes
  generate_round_hash provider_id file_id epoch_id challenge_counter nonce round_number = sha256 (
      provider_id
      ++ (file_id
          ++ (epoch_id
              ++ (be_bytes 8 challenge_counter
                  ++ (nonce ++ (be_bytes 8 round_number ++ bytes "ROUND"))))))

  -- challengeID: Sprintf("%s|%s|%d|", contractID, epochID, counter), then the nonce.
  unfoldable pub make_challenge_id : Bytes → Bytes → ℕ → Bytes → Bytes
  make_challenge_id contract_id epoch_id counter nonce =
      bytes "challenge-"
      ++ hex_encode (
          sha256
            (contract_id ++ (b'|' ∷ (epoch_id ++ (b'|' ∷ (decimal counter ++ (b'|' ∷ nonce)))))))

  -- The challenge that GenerateNextChallenge returns once the chunk is selected.
  unfoldable pub challenge_for : Bytes → Bytes → Bytes → Bytes → ℕ → ℕ → Bytes → ℕ → ℕ → Challenge
  challenge_for contract_id provider_id file_id epoch_id counter round_number nonce chunk_id now =
      record {
        challenge_id = make_challenge_id contract_id epoch_id counter nonce;
        contract_id = contract_id;
        provider_id = provider_id;
        file_id = file_id;
        epoch_id = epoch_id;
        chunk_id = pos chunk_id;
        nonce = nonce;
        challenge_counter = counter;
        round_number = round_number;
        trigger_status =
            check_round_trigger
              (generate_round_hash provider_id file_id epoch_id counter nonce round_number);
        created_at = now;
      }

  -- GenerateNextChallenge
  unfoldable pub generate_next_challenge :
      Draws
      → Bytes
      → Bytes
      → Bytes
      → Bytes
      → ℕ
      → ℕ
      → EpochStore
      → EpochStore × Result ChallengeError Challenge
  generate_next_challenge d contract_id provider_id file_id epoch_id counter round_number s =
      if is_empty contract_id || is_empty provider_id || is_empty file_id || is_empty epoch_id
      then (s, err missing_ids)
      else elim (get_epoch_state epoch_id s) [
        | err e ↦ (s, err (get_state_failed e))
        | ok state ↦
            if not (state.challenge_counter == counter)
            then (s, err (counter_mismatch counter state.challenge_counter))
            else elim (generate_nonce d.random_nonce epoch_id) [
              | err e ↦ (s, err e)
              | ok nonce ↦
                  let chunk_hash = generate_chunk_hash provider_id file_id epoch_id counter nonce in
                  let (t, selected) = select_uncovered_chunk epoch_id chunk_hash s in
                  elim selected [
                    | err e ↦ (t, err (select_failed e))
                    | ok chunk_id ↦ (
                      t,
                      ok (
                          challenge_for contract_id provider_id file_id epoch_id counter
                            round_number nonce chunk_id d.challenge_time),
                    )
                  ]
            ]
      ]

  -- CreateChallenge
  unfoldable pub create_challenge :
      Draws
      → Bytes
      → Bytes
      → Bytes
      → ℤ
      → ℕ
      → EpochStore
      → EpochStore × Result ChallengeError Challenge
  unfolding generate_next_challenge
  create_challenge d contract_id provider_id file_id total_chunks round_number s =
      if is_empty contract_id || is_empty provider_id || is_empty file_id
      then (s, err missing_ids)
      else let (t, created) =
          create_epoch d.random_id d.epoch_time provider_id file_id total_chunks s in
        elim created [
          | err e ↦ (t, err (create_epoch_failed e))
          | ok epoch_id ↦
              generate_next_challenge d contract_id provider_id file_id epoch_id 0 round_number t
        ]
