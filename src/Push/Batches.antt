-- ===== src/Push/Batches.antt =====
-- What the push handler does with the end of a batch, on every branch.
use cipher.Prelude.{
  ℕ, ◌≡◌, ◌≢◌, refl, ◌⊎◌, inl, inr, ◌==◌, Bool, true, not, ◌&&◌, ◌||◌, Option, none, some,
  Option-cases, Bool-cases, if-cases, List, [], ◌∷◌, Bytes, bytes, length, All, arith, lookup,
  insert, ltb,
}
use cipher.Push.Messages.{
  msg_push_error, status_incomplete, status_malformed, build_push_error,
  build_push_batch_complete_ack, status_ok, PushMessage, parse_push_batch_complete, status_io_error,
}
use cipher.Push.Handler.{
  all_committed, PendingSession, StreamHandler, Disk, delete, session_of, complete_batch,
  handle_push_batch_complete,
}

-- An answer other than a batch acknowledged as complete.
abbrev pub Refuses : PushMessage → Type 0
Refuses r =
    (r.type ≡ msg_push_error)
    ⊎ ((id : Bytes) × (status : ℕ) × (length id ≡ 32)
        × (status ≢ status_ok)
        × (r ≡ build_push_batch_complete_ack id status))

-- What the end of a batch does: it is refused and nothing changes, or the session is complete, its
-- manifest is stored and it is gone.
abbrev pub Completes : StreamHandler → StreamHandler × PushMessage → Type 0
Completes h x =
    ((r : PushMessage) × Refuses r × (x ≡ (h, r)))
    ⊎ ((id : Bytes) × (i : ℕ) × (s : PendingSession) × (length id ≡ 32)
        × (session_of id h ≡ some (i, s))
        × (all_committed s.expected_chunks s.committed_chunks ≡ true)
        × (x ≡ (
          record h {
            manifests = insert id s.manifest_bytes h.manifests;
            sessions = delete id h.sessions;
          },
          build_push_batch_complete_ack id status_ok,
        )))

complete_batch-Completes :
    (disk : Disk) (id : Bytes) (h : StreamHandler) (found : Option (ℕ × PendingSession))
    → length id ≡ 32
    → session_of id h ≡ found
    → Completes h (complete_batch disk id h found)
unfolding complete_batch
complete_batch-Completes disk id h none z e = inl (
  build_push_batch_complete_ack id status_incomplete,
  inr (id, status_incomplete, z, (λ q. absurd (omega (arith, q))), refl),
  refl,
)
complete_batch-Completes disk id h (some (i, s)) z e =
    let P = Completes h in
    if-cases P
      (not (all_committed s.expected_chunks s.committed_chunks)
        || ltb (length s.committed_chunks) (length s.expected_chunks))
      _ _
      (λ a. inl (
        build_push_batch_complete_ack id status_incomplete,
        inr (id, status_incomplete, z, (λ q. absurd (omega (arith, q))), refl),
        refl,
      ))
      (λ a.
        if-cases P (not disk.takes_manifest) _ _
          (λ b. inl (
            build_push_batch_complete_ack id status_io_error,
            inr (id, status_io_error, z, (λ q. absurd (omega (arith, q))), refl),
            refl,
          ))
          (λ b. inr (id, i, s, z, e, ground (arith, a), refl)))

pub handle_push_batch_complete-Completes :
    (disk : Disk) (payload : Bytes) (h : StreamHandler)
    → Completes h (handle_push_batch_complete disk payload h)
unfolding handle_push_batch_complete parse_push_batch_complete build_push_error
handle_push_batch_complete-Completes disk payload h = elim (Bool-cases (length payload == 32)) [
  | inl e ↦
      rw (e, handle_push_batch_complete)
        (complete_batch-Completes disk payload h (session_of payload h) (ground (arith, e)) refl)
  | inr e ↦ inl (
    build_push_error status_malformed (bytes "malformed batch complete payload"),
    inl refl,
    rw (e, handle_push_batch_complete) refl,
  )
]

-- What a complete session has committed.
pub all_committed-All :
    (ids : List Bytes) (committed : List (Bytes × Bool))
    → all_committed ids committed ≡ true
    → All (λ id. lookup id committed ≡ some true) ids
unfolding all_committed
all_committed-All [] committed h = tt
all_committed-All (id ∷ ids) committed h = elim (Option-cases (lookup id committed)) [
  | inl e ↦ absurd (ground (arith, h, e))
  | inr (b, e) ↦
      let both : b && all_committed ids committed ≡ true = rw (e, all_committed) at h in
      (ground (arith, e, both), all_committed-All ids committed (ground (arith, both)))
]
