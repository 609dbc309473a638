-- ===== src/Push/Sound.antt =====
-- The invariant of the push handler's state, while chunks are checked and not yet committed.
use cipher.Prelude.{
  ℕ, zero, suc, ◌≡◌, refl, subst, subst₂, ◌∙◌, inl, inr, Bool, true, Option, none, some, Bool-cases,
  List, [], ◌∷◌, ◌++◌, Bytes, bytes_eq, bytes_eq→eq, length, get_elem?, All, arith, lookup, insert,
  lookup-insert, lookup-insert_cases, lookup-insert_self,
}
use cipher.Chunk.Messages.{Chunk}
use cipher.Distribution.Planner.{Manifest}
use cipher.Push.Handler.{PendingSession, StreamHandler, contains, commit_at, delete}

ℕ_injective : (a b : ℕ) → some a ≡ some b → a ≡ b
ℕ_injective a b h = cc

pub some_injective : (a b : PendingSession) → some a ≡ some b → a ≡ b
some_injective a b h = cc

-- A chunk on its way from its check to its commit: the session object and the chunk's id.
abbrev pub Flight : Type 0
Flight = ℕ × Bytes

abbrev pub Store : Type 0
Store = List (Bytes × Chunk)

-- The pointer leads to an object of its content.
abbrev pub Points : List PendingSession → Bytes × ℕ → Type 0
Points objects e = (s : PendingSession) × (get_elem? objects e.1 ≡ some s) × (s.content_id ≡ e.0)

module _ (sha256 : Bytes → Bytes) where
  -- The store has the chunk, under its digest.
  abbrev pub Held : Store → Bytes → Type 0
  Held chunks id = (k : Chunk) × (lookup id chunks ≡ some k) × (sha256 k.data_bytes ≡ id)

  -- The chunk is held, was assigned in the session and stands in its manifest.
  abbrev pub Kept : Store → PendingSession → Bytes → Type 0
  Kept chunks s id =
      Held chunks id
      × (contains id s.expected_chunks ≡ true)
      × (contains id s.manifest.chunk_ids ≡ true)

  module _ (deserialize : Bytes → Option Manifest) where
    pub record Object (chunks : Store) (s : PendingSession) : Type 0 where
      pub decoded : deserialize s.manifest_bytes ≡ some s.manifest
      pub named : s.manifest.content_id ≡ s.content_id
      pub committed : (id : Bytes) → lookup id s.committed_chunks ≡ some true → Kept chunks s id

    pub record IsSound (h : StreamHandler) (flights : List Flight) : Type 0 where
      pub hashed : (id : Bytes) (k : Chunk) → lookup id h.chunks ≡ some k → sha256 k.data_bytes ≡ id
      pub objects : All (Object h.chunks) h.objects
      pub pointers : All (Points h.objects) h.sessions
      pub flying :
          All
            (λ (f : Flight).
              (s : PendingSession) × (get_elem? h.objects f.0 ≡ some s) × Kept h.chunks s f.1)
            flights

  -- A store that takes a chunk under its digest.
  module _ (id : Bytes) (k : Chunk) (chunks : Store) (digest : sha256 k.data_bytes ≡ id) where
    pub Held-insert : (j : Bytes) → Held chunks j → Held (insert id k chunks) j
    Held-insert j (m, l, e) = elim (Bool-cases (bytes_eq id j)) [
      | inl b ↦
          let same = bytes_eq→eq id j b in
          (k, rw (← same) (lookup-insert_self id k chunks), digest ∙ same)
      | inr b ↦ (m, ground (arith, lookup-insert id j k chunks, b, l), e)
    ]

    pub Held-insert_self : Held (insert id k chunks) id
    Held-insert_self = (k, lookup-insert_self id k chunks, digest)

    pub Kept-insert :
        (s : PendingSession) (j : Bytes) → Kept chunks s j → Kept (insert id k chunks) s j
    Kept-insert s j (h, a, b) = (Held-insert j h, a, b)

    pub Object-insert :
        (deserialize : Bytes → Option Manifest) (ss : List PendingSession)
        → All (Object deserialize chunks) ss
        → All (Object deserialize (insert id k chunks)) ss
    Object-insert deserialize [] h = tt
    Object-insert deserialize (s ∷ ss) h = (
      record {
        decoded = h.0.decoded;
        named = h.0.named;
        committed = λ j l. Kept-insert s j (h.0.committed j l);
      },
      Object-insert deserialize ss h.1,
    )

  -- A commit of a chunk that is kept.
  pub commit_at-Object :
      (deserialize : Bytes → Option Manifest) (chunks : Store) (i : ℕ) (id : Bytes)
      (ss : List PendingSession) (s : PendingSession)
      → get_elem? ss i ≡ some s
      → Kept chunks s id
      → All (Object deserialize chunks) ss
      → All (Object deserialize chunks) (commit_at i id ss)
  unfolding commit_at
  commit_at-Object deserialize chunks i id [] s e k h = tt
  commit_at-Object deserialize chunks zero id (t ∷ ss) s e k h =
      let same : t ≡ s = some_injective t s e in
      (
        record {
          decoded = h.0.decoded;
          named = h.0.named;
          committed = λ j l. elim (lookup-insert_cases id j true true t.committed_chunks l) [
            | inl (x, y) ↦ rw (← x, same) k
            | inr (x, y) ↦ h.0.committed j y
          ];
        },
        h.1,
      )
  commit_at-Object deserialize chunks (suc i) id (t ∷ ss) s e k h =
      (h.0, commit_at-Object deserialize chunks i id ss s e k h.1)

-- A commit changes nothing else of an object.
pub get_elem?-commit_at :
    (j : ℕ) (id : Bytes) (ss : List PendingSession) (i : ℕ) (s : PendingSession)
    → get_elem? ss i ≡ some s
    → (committed : List (Bytes × Bool)) × (get_elem? (commit_at j id ss) i
        ≡ some (record s { committed_chunks = committed }))
unfolding commit_at
get_elem?-commit_at j id [] i s e = absurd (cc)
get_elem?-commit_at zero id (t ∷ ss) zero s e =
    (insert id true t.committed_chunks, ground (arith, e))
get_elem?-commit_at zero id (t ∷ ss) (suc i) s e = (s.committed_chunks, e)
get_elem?-commit_at (suc j) id (t ∷ ss) zero s e = (s.committed_chunks, e)
get_elem?-commit_at (suc j) id (t ∷ ss) (suc i) s e = get_elem?-commit_at j id ss i s e

-- An object that is added leaves those before it, and stands at the end.
pub get_elem?-append :
    (ss : List PendingSession) (t : PendingSession) (i : ℕ) (s : PendingSession)
    → get_elem? ss i ≡ some s
    → get_elem? (ss ++ (t ∷ [])) i ≡ some s
get_elem?-append [] t i s e = absurd (cc)
get_elem?-append (u ∷ ss) t zero s e = e
get_elem?-append (u ∷ ss) t (suc i) s e = get_elem?-append ss t i s e

pub get_elem?-append_last :
    (ss : List PendingSession) (t : PendingSession)
    → get_elem? (ss ++ (t ∷ [])) (length ss) ≡ some t
get_elem?-append_last [] t = refl
get_elem?-append_last (u ∷ ss) t = get_elem?-append_last ss t

pub All-get_elem? :
    (P : PendingSession → Type 0) (ss : List PendingSession) (i : ℕ) (s : PendingSession)
    → All P ss
    → get_elem? ss i ≡ some s
    → P s
All-get_elem? P [] i s h e = absurd (cc)
All-get_elem? P (t ∷ ss) zero s h e = subst P (some_injective t s e) h.0
All-get_elem? P (t ∷ ss) (suc i) s h e = All-get_elem? P ss i s h.1 e

module _ (P : Bytes × ℕ → Type 0) where
  pub All-insert :
      (k : Bytes) (v : ℕ) (m : List (Bytes × ℕ)) → P (k, v) → All P m → All P (insert k v m)
  unfolding insert
  All-insert k v [] p h = (p, tt)
  All-insert k v ((j, w) ∷ m) p h = elim (Bool-cases (bytes_eq j k)) [
    | inl b ↦ rw b (p, h.1)
    | inr b ↦ rw b (h.0, All-insert k v m p h.1)
  ]

  pub All-delete : (k : Bytes) (m : List (Bytes × ℕ)) → All P m → All P (delete k m)
  unfolding delete
  All-delete k [] h = tt
  All-delete k ((j, w) ∷ m) h = elim (Bool-cases (bytes_eq j k)) [
    | inl b ↦ rw b (All-delete k m h.1)
    | inr b ↦ rw b (h.0, All-delete k m h.1)
  ]

  pub All-lookup :
      (k : Bytes) (v : ℕ) (m : List (Bytes × ℕ)) → All P m → lookup k m ≡ some v → P (k, v)
  unfolding lookup
  All-lookup k v [] h e = absurd (cc)
  All-lookup k v ((j, w) ∷ m) h e = elim (Bool-cases (bytes_eq j k)) [
    | inl b ↦
        let found : some w ≡ some v = rw b at e in
        subst₂ (λ x y. P (x, y)) (bytes_eq→eq j k b) (ℕ_injective w v found) h.0
    | inr b ↦ All-lookup k v m h.1 (rw b at e)
  ]

pub lookup-delete_self : (k : Bytes) (m : List (Bytes × ℕ)) → lookup k (delete k m) ≡ none
unfolding lookup delete
lookup-delete_self k [] = refl
lookup-delete_self k ((j, w) ∷ m) = elim (Bool-cases (bytes_eq j k)) [
  | inl b ↦ rw b (lookup-delete_self k m)
  | inr b ↦ rw (b, b) (lookup-delete_self k m)
]
