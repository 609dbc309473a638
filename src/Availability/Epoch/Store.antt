-- ===== src/Availability/Epoch/Store.antt =====
-- The epoch store of epoch.go as a whole: what holds of it after any sequence of operations.
use cipher.Prelude.{
  ℕ, zero, suc, ◌+◌, ◌%◌, ◌^◌, ◌<◌, ◌≡◌, ◌≢◌, refl, ap, subst, true, false, Option, none, some,
  List, [], Bytes, bytes_eq_iff, is_empty, length, lookup, insert, arith, Option-cases, Bool-cases,
  ◌||◌, not, lookup-insert_cases, lookup-insert_self, lookup-insert_ne, inl, inr,
}
use cipher.Prelude.Int.{ℤ, pos, pos_part, is_positive}
use cipher.Prelude.Encoding.{be_value}
use cipher.Availability.Types.{Epoch, active, ended}
use cipher.Availability.Epoch.{
  is_active, EpochStore, indices, store_key, previous_epoch, end_previous, add_epoch, create_epoch,
  remove_at, select_from, select_uncovered_chunk, start_next_epoch,
}
use cipher.Availability.Epoch.Coverage.{length-select_from}

pub length-indices : (i n : ℕ) → length (indices i n) ≡ n
unfolding indices
length-indices i zero = refl
length-indices i (suc n) = ap suc (length-indices (i + 1) n)

-- What holds of one entry of the store.
pub record IsSound (latest : List (Bytes × Bytes)) (id : Bytes) (e : Epoch) : Type 0 where
  pub named : e.id ≡ id
  pub sized : e.total_chunks < 2 ^ 63
  pub counted : e.challenge_counter + length e.uncovered ≡ e.total_chunks
  pub tracked : e.status ≡ active → lookup (store_key e.provider_id e.file_id) latest ≡ some id

-- Every epoch is stored under its own identifier, has counted one challenge for each chunk that is
-- no longer uncovered, and if it is active it is the latest of its provider and file.
abbrev pub IsSoundStore : EpochStore → Type 0
IsSoundStore s = (id : Bytes) (e : Epoch) → lookup id s.epochs ≡ some e → IsSound s.latest id e

-- A property of the store holds after a selection if it held before, and if it survives the update
-- of an active epoch that has uncovered chunks.
module _ {ℓ} (Q : EpochStore → Type ℓ) (epoch_id chunk_hash : Bytes) (s : EpochStore) (before : Q s)
    (updated : (e : Epoch)
      → lookup epoch_id s.epochs ≡ some e
      → e.status ≡ active
      → e.uncovered ≢ []
      → Q (record s { epochs = insert epoch_id (select_from e chunk_hash).0 s.epochs })) where
  in_epoch :
      (e : Epoch)
      → lookup epoch_id s.epochs ≡ some e
      → is_active e.status ≡ true
      → is_empty e.uncovered ≡ false
      → Q (record s { epochs = insert epoch_id (select_from e chunk_hash).0 s.epochs })
  in_epoch e h a b = updated e h (ground arith) (λ z. ground arith)

  select-keeps : Q (select_uncovered_chunk epoch_id chunk_hash s).0
  unfolding select_uncovered_chunk
  select-keeps = elim (Bool-cases (is_empty epoch_id || is_empty chunk_hash)) [
    | inl p ↦ rw p before
    | inr q ↦ rw q (elim (Option-cases (lookup epoch_id s.epochs)) [
      | inl n ↦ rw n before
      | inr (e, h) ↦ rw h (elim (Bool-cases (is_active e.status)) [
        | inr a ↦ rw a before
        | inl a ↦ rw a (elim (Bool-cases (is_empty e.uncovered)) [
          | inl b ↦ rw b before
          | inr b ↦ rw b (in_epoch e h a b)
        ])
      ])
    ])
  ]

select_from-IsSound :
    (latest : List (Bytes × Bytes)) (id chunk_hash : Bytes) (e : Epoch)
    → e.uncovered ≢ []
    → IsSound latest id e
    → IsSound latest id (select_from e chunk_hash).0
unfolding select_from
select_from-IsSound latest id chunk_hash e left h =
    let index = be_value chunk_hash % length e.uncovered in
    let shorter : suc (length (remove_at e.uncovered index)) ≡ length e.uncovered =
      length-select_from e chunk_hash left in
    record {
      named = h.named;
      sized = h.sized;
      counted = omega (arith, shorter, h.counted, h.sized);
      tracked = h.tracked;
    }

pub select-IsSoundStore :
    (epoch_id chunk_hash : Bytes) (s : EpochStore)
    → IsSoundStore s
    → IsSoundStore (select_uncovered_chunk epoch_id chunk_hash s).0
select-IsSoundStore epoch_id chunk_hash s inv =
    select-keeps IsSoundStore epoch_id chunk_hash s inv λ e found live left id e' h.
      elim (lookup-insert_cases epoch_id id (select_from e chunk_hash).0 e' s.epochs h) [
        | inl (p, q) ↦ subst (IsSound s.latest id) q (
            select_from-IsSound s.latest id chunk_hash e left
              (inv id e (subst (λ k. lookup k s.epochs ≡ some e) p found)))
        | inr (n, old) ↦ inv id e' old
      ]

previous_epoch-some :
    (key id : Bytes) (e : Epoch) (s : EpochStore)
    → previous_epoch key s ≡ some (id, e)
    → (lookup key s.latest ≡ some id) × (lookup id s.epochs ≡ some e)
unfolding previous_epoch
previous_epoch-some key id e s h = ground arith

previous_epoch-found :
    (key id : Bytes) (e : Epoch) (s : EpochStore)
    → lookup key s.latest ≡ some id
    → lookup id s.epochs ≡ some e
    → previous_epoch key s ≡ some (id, e)
unfolding previous_epoch
previous_epoch-found key id e s a b = ground arith

-- An entry that is active after `end_previous` was the same before, and belongs to another
-- provider and file.
end_previous-IsSound :
    (key : Bytes) (s : EpochStore) (id : Bytes) (e : Epoch)
    → IsSoundStore s
    → lookup id (end_previous (previous_epoch key s) s.epochs) ≡ some e
    → IsSound s.latest id e × (e.status ≡ active → key ≢ store_key e.provider_id e.file_id)
unfolding end_previous
end_previous-IsSound key s id e inv h = elim (Option-cases (previous_epoch key s)) [
  | inl a ↦
      let old : lookup id s.epochs ≡ some e = ground arith in
      (
        inv id e old,
        λ live same.
            cc (a, previous_epoch-found key id e s (rw same ((inv id e old).tracked live)) old),
      )
  | inr ((pid, pe), a) ↦
      let (latest, found) = previous_epoch-some key pid pe s a in
      elim (lookup-insert_cases pid id (record pe { status = ended }) e s.epochs (rw a at h)) [
        | inl (p, q) ↦ let was = inv pid pe found in (ground (arith, was), λ live. ground arith)
        | inr (n, old) ↦
            let was = inv id e old in
            (was, λ live same. ground (arith, was.tracked live, bytes_eq_iff pid id))
      ]
]

add_epoch-IsSoundStore :
    (p f : Bytes) (total : ℕ) (epoch_id : Bytes) (now : ℕ) (s : EpochStore)
    → total < 2 ^ 63
    → IsSoundStore s
    → IsSoundStore (add_epoch p f total epoch_id now s)
unfolding add_epoch
add_epoch-IsSoundStore p f total epoch_id now s fits inv id e h =
    elim (lookup-insert_cases epoch_id id _ e _ h) [
      | inl (q, r) ↦
          ground
            (arith, length-indices 0 total, lookup-insert_self (store_key p f) epoch_id s.latest)
      | inr (n, old) ↦
          let (was, elsewhere) = end_previous-IsSound (store_key p f) s id e inv old in
          ground (
            arith,
            was,
            elsewhere,
            lookup-insert_ne (store_key p f) (store_key e.provider_id e.file_id) epoch_id s.latest,
          )
    ]

pub create_epoch-IsSoundStore :
    (r : Option Bytes) (now : ℕ) (p f : Bytes) (total : ℤ) (s : EpochStore)
    → pos_part total < 2 ^ 63
    → IsSoundStore s
    → IsSoundStore (create_epoch r now p f total s).0
unfolding create_epoch
create_epoch-IsSoundStore none now p f total s fits inv =
    elim (Bool-cases (is_empty p || is_empty f)) [
      | inl a ↦ rw a inv
      | inr a ↦
          rw a (elim (Bool-cases (not (is_positive total))) [ inl b ↦ rw b inv | inr b ↦ rw b inv ])
    ]
create_epoch-IsSoundStore (some bs) now p f total s fits inv =
    elim (Bool-cases (is_empty p || is_empty f)) [
      | inl a ↦ rw a inv
      | inr a ↦ rw a (elim (Bool-cases (not (is_positive total))) [
        | inl b ↦ rw b inv
        | inr b ↦ rw b (add_epoch-IsSoundStore p f (pos_part total) _ now s fits inv)
      ])
    ]

pub start_next-IsSoundStore :
    (r : Option Bytes) (now : ℕ) (p f : Bytes) (s : EpochStore)
    → IsSoundStore s
    → IsSoundStore (start_next_epoch r now p f s).0
unfolding start_next_epoch
start_next-IsSoundStore r now p f s inv = elim (Bool-cases (is_empty p || is_empty f)) [
  | inl a ↦ rw a inv
  | inr a ↦ rw a (elim (Option-cases (lookup (store_key p f) s.latest)) [
    | inl b ↦ rw b inv
    | inr (id, b) ↦ rw b (elim (Option-cases (lookup id s.epochs)) [
      | inl c ↦ rw c inv
      | inr (e, c) ↦
          rw c (create_epoch-IsSoundStore r now p f (pos e.total_chunks) s (inv id e c).sized inv)
    ])
  ])
]
