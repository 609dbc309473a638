-- ===== src/Availability/Epoch/Fresh.antt =====
-- A new epoch of epoch.go, from its creation to its last chunk.
use mathlib.Core.List.{Perm, append-nil}
use cipher.Prelude.{
  ℕ, ◌<◌, ◌≡◌, ◌≢◌, refl, some, List, [], ◌++◌, Bytes, bytes, length, All, lookup,
  lookup-insert_self, err, ok, arith,
}
use cipher.Prelude.Int.{pos}
use cipher.Prelude.Encoding.{hex_encode}
use cipher.Availability.Types.{Epoch, active}
use cipher.Availability.Epoch.{
  EpochStore, no_uncovered, indices, store_key, previous_epoch, next_round, add_epoch, create_epoch,
  select_uncovered_chunk,
}
use cipher.Availability.Epoch.Coverage.{select_each, select_each-covers}
use cipher.Availability.Epoch.Store.{length-indices}

uncovered_spent : (e : Epoch) → length e.uncovered ≡ 0 → e.uncovered ≡ []
uncovered_spent e h = grind arith

select_uncovered_chunk-spent :
    (id h : Bytes) (t : EpochStore) (e : Epoch)
    → id ≢ []
    → h ≢ []
    → lookup id t.epochs ≡ some e
    → e.status ≡ active
    → e.uncovered ≡ []
    → select_uncovered_chunk id h t ≡ (t, err no_uncovered)
unfolding select_uncovered_chunk
select_uncovered_chunk-spent id h t e ni hh found live spent = ground arith

module _ (r : Bytes) (now : ℕ) (p f : Bytes) (n : ℕ) (s : EpochStore) (provider : p ≢ [])
    (file : f ≢ []) (positive : 0 < n) where
  abbrev epoch_id : Bytes
  epoch_id = bytes "epoch-" ++ hex_encode r

  -- A call of CreateEpoch that is not refused.
  create_epoch-ok : create_epoch (some r) now p f (pos n) s ≡ (
    add_epoch p f n (bytes "epoch-" ++ hex_encode r) now s,
    ok (bytes "epoch-" ++ hex_encode r),
  )
  unfolding create_epoch
  create_epoch-ok = ground arith

  fresh : Epoch
  unfolding add_epoch
  fresh = record {
    id = bytes "epoch-" ++ hex_encode r;
    provider_id = p;
    file_id = f;
    total_chunks = n;
    challenge_counter = 0;
    uncovered = indices 0 n;
    status = active;
    round_number = next_round (previous_epoch (store_key p f) s);
    created_at = now;
  }

  lookup-fresh : lookup epoch_id (add_epoch p f n epoch_id now s).epochs ≡ some fresh
  unfolding fresh add_epoch
  lookup-fresh = lookup-insert_self _ _ _

  -- A new epoch, of a named provider and file and of at least one chunk, challenges every chunk of
  -- the file exactly once: with as many selections as there are chunks, whatever their non-empty
  -- hashes, the chunks chosen are a permutation of 0 to n - 1, and a further selection is refused.
  pub create_epoch-covers :
      (hs : List Bytes) (more : Bytes)
      → more ≢ []
      → All (λ h. h ≢ []) hs
      → length hs ≡ n
      → let (s', created) = create_epoch (some r) now p f (pos n) s in
        let id = bytes "epoch-" ++ hex_encode r in
        (created ≡ ok id)
        × (ids : List ℕ) × (t : EpochStore) × (select_each id hs s' ≡ (t, ok ids))
        × Perm ids (indices 0 n)
        × (select_uncovered_chunk id more t ≡ (t, err no_uncovered))
  unfolding fresh
  create_epoch-covers hs more given hashed enough =
      let total = length-indices 0 n in
      let c =
        select_each-covers epoch_id hs (add_epoch p f n epoch_id now s) fresh (λ z. cc) hashed
          lookup-fresh refl (omega (arith, total)) in
      let spent : c.left.uncovered ≡ [] =
        uncovered_spent c.left (omega (arith, c.counted, total)) in
      rw create_epoch-ok (
        refl,
        c.chunk_ids,
        c.final,
        c.runs,
        rw (spent, append-nil) at (c.partition),
        select_uncovered_chunk-spent epoch_id more c.final c.left (λ z. cc) given c.kept
            c.still_active spent,
      )
