-- ===== src/Availability/Epoch/Coverage.antt =====
-- An epoch challenges every chunk exactly once: what epoch.go's selection leaves and what it has
-- returned are together the chunks that it started with.
use mathlib.Core.List.{Perm}
use mathlib.Core.List.Perm
use native.Mathlib.Nat.{mod-lt}
use cipher.Prelude.{
  ℕ, zero, suc, ◌+◌, ◌<◌, ◌≤◌, ◌≡◌, ◌≢◌, refl, ap, some, List, [], ◌∷◌, ◌++◌, Bytes, length, All,
  get_or, lookup, insert, lookup-insert_self, Result, ok, err, ◌>>=◌, arith,
}
use cipher.Availability.Types.{Epoch, active}
use cipher.Availability.Epoch.{
  EpochStore, EpochError, remove_at, select_from, select_uncovered_chunk,
}

-- Taking one element out of a list leaves the others.
remove_at-perm : (u : List ℕ) (i : ℕ) → i < length u → Perm (get_or u i 0 ∷ remove_at u i) u
remove_at-perm [] i h = absurd (omega arith)
remove_at-perm (x ∷ xs) zero h = Perm.refl _
remove_at-perm (x ∷ xs) (suc i) h =
    Perm.trans (Perm.swap _ _ _) (Perm.cons x (remove_at-perm xs i (omega arith)))

length-remove_at : (u : List ℕ) (i : ℕ) → i < length u → suc (length (remove_at u i)) ≡ length u
length-remove_at [] i h = absurd (omega arith)
length-remove_at (x ∷ xs) zero h = refl
length-remove_at (x ∷ xs) (suc i) h = ap suc (length-remove_at xs i (omega arith))

-- Selections in one epoch, one for each hash; it stops at the first error.
unfoldable pub select_each :
    Bytes → List Bytes → EpochStore → EpochStore × Result EpochError (List ℕ)
select_each epoch_id [] s = (s, ok [])
select_each epoch_id (h ∷ hs) s =
    let (s', r) = select_uncovered_chunk epoch_id h s in
    elim r [
      | err e ↦ (s', err e)
      | ok chunk_id ↦
          let (t, rest) = select_each epoch_id hs s' in (t, rest >>= λ ids. ok (chunk_id ∷ ids))
    ]

-- The choice takes one chunk out of the uncovered ones.
module _ (e : Epoch) (chunk_hash : Bytes) (left : e.uncovered ≢ []) where
  pub select_from-perm :
      Perm ((select_from e chunk_hash).1 ∷ (select_from e chunk_hash).0.uncovered) e.uncovered
  unfolding select_from
  select_from-perm = remove_at-perm e.uncovered _ (mod-lt _ (ground arith))

  pub length-select_from : suc (length (select_from e chunk_hash).0.uncovered) ≡ length e.uncovered
  unfolding select_from
  length-select_from = length-remove_at e.uncovered _ (mod-lt _ (ground arith))

-- One selection in an active epoch with uncovered chunks, written out.
module _ (epoch_id chunk_hash : Bytes) (s : EpochStore) (e : Epoch) (named : epoch_id ≢ [])
    (hashed : chunk_hash ≢ []) (found : lookup epoch_id s.epochs ≡ some e)
    (live : e.status ≡ active) (left : e.uncovered ≢ []) where
  pub select_uncovered_chunk-ok : select_uncovered_chunk epoch_id chunk_hash s ≡ (
    record s { epochs = insert epoch_id (select_from e chunk_hash).0 s.epochs },
    ok (select_from e chunk_hash).1,
  )
  unfolding select_uncovered_chunk
  select_uncovered_chunk-ok = ground arith

select_each_step :
    (epoch_id h : Bytes) (hs : List Bytes) (s s' t : EpochStore) (c : ℕ) (cs : List ℕ)
    → select_uncovered_chunk epoch_id h s ≡ (s', ok c)
    → select_each epoch_id hs s' ≡ (t, ok cs)
    → select_each epoch_id (h ∷ hs) s ≡ (t, ok (c ∷ cs))
unfolding select_each
select_each_step epoch_id h hs s s' t c cs p q = ground arith

-- The store after all the selections, and what they returned.
pub record Covered (epoch_id : Bytes) (hs : List Bytes) (s : EpochStore) (e : Epoch) : Type 0 where
  pub chunk_ids : List ℕ
  pub final : EpochStore
  pub left : Epoch
  pub runs : select_each epoch_id hs s ≡ (final, ok chunk_ids)
  pub kept : lookup epoch_id final.epochs ≡ some left
  pub partition : Perm (chunk_ids ++ left.uncovered) e.uncovered
  pub counted : length hs + length left.uncovered ≡ length e.uncovered
  pub still_active : left.status ≡ active

-- In an active epoch, as many selections as there are uncovered chunks (or fewer) all succeed,
-- whatever the hashes, and the chunks returned with those left are exactly the uncovered chunks
-- before: no chunk is lost, and none is returned twice.
pub select_each-covers :
    (epoch_id : Bytes) (hs : List Bytes) (s : EpochStore) (e : Epoch)
    → epoch_id ≢ []
    → All (λ h. h ≢ []) hs
    → lookup epoch_id s.epochs ≡ some e
    → e.status ≡ active
    → length hs ≤ length e.uncovered
    → Covered epoch_id hs s e
unfolding select_each
select_each-covers epoch_id [] s e named hashed found live enough = record {
  chunk_ids = [];
  final = s;
  left = e;
  runs = refl;
  kept = found;
  partition = Perm.refl _;
  counted = omega arith;
  still_active = live;
}
select_each-covers epoch_id (h ∷ hs) s e named (hh, hashed) found live enough =
    let left : e.uncovered ≢ [] = λ z. absurd (omega (arith, ap (length {A = ℕ}) z, enough)) in
    let e' = (select_from e h).0 in
    let s' : EpochStore = record s { epochs = insert epoch_id e' s.epochs } in
    let first = select_uncovered_chunk-ok epoch_id h s e named hh found live left in
    let shorter = length-select_from e h left in
    let rest =
      select_each-covers epoch_id hs s' e' named hashed (lookup-insert_self epoch_id e' s.epochs)
        (unfold select_from in live) (omega (arith, shorter)) in
    record {
      chunk_ids = (select_from e h).1 ∷ rest.chunk_ids;
      final = rest.final;
      left = rest.left;
      runs = select_each_step epoch_id h hs s s' _ _ _ first rest.runs;
      kept = rest.kept;
      partition = Perm.trans (Perm.cons _ rest.partition) (select_from-perm e h left);
      counted = omega (arith, rest.counted, shorter);
      still_active = rest.still_active;
    }
