-- ===== src/Push/Checks.antt =====
-- What the push handler does with a manifest and with a chunk, on every branch.
use cipher.Prelude.{
  ℕ, ◌≡◌, refl, ◌⊎◌, inl, inr, Bool, true, not, ◌&&◌, Option, none, some, Option-cases, Bool-cases,
  Result-cases, if-cases, List, [], ◌∷◌, ◌++◌, Bytes, bytes, bytes_eq, bytes_eq→eq, length,
  get_elem?, arith, lookup, insert,
}
use cipher.Chunk.Messages.{Chunk}
use cipher.Distribution.Planner.{Manifest}
use cipher.Push.Messages.{
  status_not_in_assigned_set, status_malformed, status_hash_mismatch, build_push_error, PushMessage,
  parse_push_manifest, parse_push_chunk, build_push_chunk_ack, status_io_error,
}
use cipher.Push.Handler.{
  PendingSession, StreamHandler, Disk, Checked, answered, accepted, contains, distinct, present,
  session_of, store_chunk, check_chunk, check_push_chunk, handle_push_manifest,
}

-- What a manifest message does: nothing but an answer, or a new object for its content.
pub manifest_effect :
    (deserialize : Bytes → Option Manifest) (payload : Bytes) (h : StreamHandler)
    → let h' = (handle_push_manifest deserialize payload h).0 in
      (h' ≡ h)
      ⊎ ((id : Bytes) × (assigned : List Bytes) × (mb : Bytes) × (m : Manifest) × (deserialize mb
            ≡ some m)
          × (m.content_id ≡ id)
          × (h' ≡ (record h {
            objects =
                h.objects
                ++ (record {
                  content_id = id;
                  manifest = m;
                  manifest_bytes = mb;
                  expected_chunks = distinct assigned [];
                  committed_chunks = [];
                }
                    ∷ []);
            sessions = insert id (length h.objects) h.sessions;
          })))
unfolding handle_push_manifest
manifest_effect deserialize payload h = elim (Result-cases (parse_push_manifest payload)) [
  | inl (e, p) ↦ inl (rw (p, handle_push_manifest) refl)
  | inr ((id, assigned, mb), p) ↦ elim (Option-cases (deserialize mb)) [
    | inl d ↦ inl (rw (p, d, handle_push_manifest) refl)
    | inr (m, d) ↦ elim (Bool-cases (bytes_eq m.content_id id)) [
      | inl b ↦ inr (
        id,
        assigned,
        mb,
        m,
        d,
        bytes_eq→eq m.content_id id b,
        rw (p, d, b, handle_push_manifest) refl,
      )
      | inr b ↦ inl (rw (p, d, b, handle_push_manifest) refl)
    ]
  ]
]

-- What the check of a chunk does: an answer and no change, or a chunk that the session accepts is in
-- the store.
abbrev pub Checks : (Bytes → Bytes) → StreamHandler → StreamHandler × Checked → Type 0
Checks sha256 h x =
    ((r : PushMessage) × (x ≡ (h, answered r)))
    ⊎ ((i : ℕ) × (s : PendingSession) × (k : Chunk) × (get_elem? h.objects i ≡ some s)
        × (contains k.header.id s.expected_chunks ≡ true)
        × (contains k.header.id s.manifest.chunk_ids ≡ true)
        × (sha256 k.data_bytes ≡ k.header.id)
        × (((k' : Chunk) × (lookup k.header.id h.chunks ≡ some k')
              × (x ≡ (h, accepted i k.header.id)))
            ⊎ (x ≡ (record h { chunks = insert k.header.id k h.chunks }, accepted i k.header.id))))

and_true : (a b : Bool) → a && b ≡ true → (a ≡ true) × (b ≡ true)
and_true a b h = ground (arith, h)

present-some : (o : Option Chunk) → present o ≡ true → (k : Chunk) × (o ≡ some k)
present-some none h = absurd (cc)
present-some (some k) h = (k, refl)

module _ (sha256 : Bytes → Bytes) (disk : Disk) (h : StreamHandler) where
  store_chunk-Checks :
      (i : ℕ) (s : PendingSession) (k : Chunk)
      → get_elem? h.objects i ≡ some s
      → contains k.header.id s.expected_chunks ≡ true
      → contains k.header.id s.manifest.chunk_ids ≡ true
      → sha256 k.data_bytes ≡ k.header.id
      → Checks sha256 h (store_chunk disk i k h)
  unfolding store_chunk
  store_chunk-Checks i s k e a b d =
      if-cases (Checks sha256 h) (disk.answers && present (lookup k.header.id h.chunks)) _ _
        (λ has.
          let (k', l) = present-some (lookup k.header.id h.chunks) (and_true _ _ has).1 in
          inr (i, s, k, e, a, b, d, inl (k', l, refl)))
        (λ has.
          if-cases (Checks sha256 h) (not disk.takes_chunk) _ _
            (λ full. inl (build_push_chunk_ack k.header.id status_io_error, refl))
            (λ full. inr (i, s, k, e, a, b, d, inr refl)))

  check_chunk-Checks :
      (k : Chunk) (found : Option (ℕ × PendingSession))
      → ((i : ℕ) (s : PendingSession) → found ≡ some (i, s) → get_elem? h.objects i ≡ some s)
      → Checks sha256 h (check_chunk sha256 disk k h found)
  unfolding check_chunk
  check_chunk-Checks k none there =
      inl (build_push_chunk_ack k.header.id status_not_in_assigned_set, refl)
  check_chunk-Checks k (some (i, s)) there =
      let P = Checks sha256 h in
      let id = k.header.id in
      if-cases P (not (contains id s.expected_chunks)) _ _
        (λ a. inl (build_push_chunk_ack id status_not_in_assigned_set, refl))
        (λ a.
          if-cases P (not (contains id s.manifest.chunk_ids)) _ _
            (λ b. inl (build_push_chunk_ack id status_malformed, refl))
            (λ b.
              if-cases P (not (bytes_eq (sha256 k.data_bytes) id)) _ _
                (λ d. inl (build_push_chunk_ack id status_hash_mismatch, refl))
                (λ d.
                  store_chunk-Checks i s k (there i s refl) (ground (arith, a)) (ground (arith, b))
                    (bytes_eq→eq (sha256 k.data_bytes) id (ground (arith, d))))))

  pub session_of-object :
      (id : Bytes) (i : ℕ) (s : PendingSession)
      → session_of id h ≡ some (i, s)
      → (lookup id h.sessions ≡ some i) × (get_elem? h.objects i ≡ some s)
  unfolding session_of
  session_of-object id i s e = elim (Option-cases (lookup id h.sessions)) [
    | inl l ↦ absurd (ground (arith, e, l))
    | inr (j, l) ↦ elim (Option-cases (get_elem? h.objects j)) [
      | inl g ↦ absurd (ground (arith, e, l, g))
      | inr (t, g) ↦ (ground (arith, e, l, g), ground (arith, e, l, g))
    ]
  ]

  pub check_push_chunk-Checks :
      (payload : Bytes) → Checks sha256 h (check_push_chunk sha256 disk payload h)
  unfolding check_push_chunk
  check_push_chunk-Checks payload = elim (Result-cases (parse_push_chunk payload)) [
    | inl (e, p) ↦ inl (
      build_push_error status_malformed (bytes "malformed chunk payload"),
      rw (p, check_push_chunk) refl,
    )
    | inr ((id, k), p) ↦
        rw (p, check_push_chunk)
          (check_chunk-Checks k (session_of id h) (λ i s e. (session_of-object id i s e).1))
  ]
