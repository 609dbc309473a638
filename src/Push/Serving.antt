-- ===== src/Push/Serving.antt =====
-- The loop of handleStream: the peers that it refuses and the messages that it serves.
use cipher.Prelude.{
  ℕ, zero, suc, true, false, not, ◌&&◌, Option, some, List, [], ◌∷◌, Bytes, length, ◌==◌, ok, ◌≡◌,
  ◌≢◌, false, true, err, refl, ◌<◌, arith, inl, inr, Result-cases, if-cases, ◌⊎◌,
}
use cipher.Distribution.Planner.{Manifest}
use cipher.Push.Messages.{
  PushMessage, PushError, current_push_version, msg_push_manifest, msg_push_error, msg_push_chunk,
  msg_push_batch_complete, build_push_error, read_push_message,
}
use cipher.Push.Handler.{
  handle_push_manifest, handle_push_batch_complete, StreamHandler, Disk, Checked, answered,
  accepted, contains, check_push_chunk,
}
use cipher.Push.Stream.{
  Policy, Reply, ends, goes_on, chunk_committed, handle_push_chunk, handle_message, serve,
  handle_stream,
}
use cipher.Push.Steps.{Server, Step, Run, manifest, check, commit, complete, stay, more, checked}
use cipher.Push.Reading.{read_push_message-length}

-- The peer may not push: pushes are off, or there is a list of publishers and the peer is not on it.
abbrev pub IsBarred : Policy → Bytes → Type 0
IsBarred policy remote_peer =
    (policy.allow_push ≡ false)
    ⊎ ((policy.allowlist ≡ true) × (contains remote_peer policy.allowed_publishers ≡ false))

module _ (sha256 : Bytes → Bytes) (deserialize : Bytes → Option Manifest) where
  -- What one stream does alone.
  abbrev pub Serves : StreamHandler → StreamHandler → Type 0
  Serves h h' =
      Run sha256 deserialize (record { handler = h; flights = [] })
        (record { handler = h'; flights = [] })

  Run-append :
      {u v w : Server}
      → Run sha256 deserialize u v
      → Run sha256 deserialize v w
      → Run sha256 deserialize u w
  Run-append r (stay v) = r
  Run-append r (more v v' v'' s t) = more _ v' v'' (Run-append r s) t

  one : {u v : Server} → Step sha256 deserialize u v → Run sha256 deserialize u v
  one {u} {v} s = more u u v (stay u) s

  chunk_committed-Run :
      (h : StreamHandler) (x : StreamHandler × Checked)
      → Run sha256 deserialize (record { handler = h; flights = [] }) (checked x [])
      → Serves h (chunk_committed x).0
  chunk_committed-Run h (h', answered a) r = r
  chunk_committed-Run h (h', accepted i id) r = Run-append r (one (commit i id [] [] _ refl))

  -- What the loop answers to a message, and the handler behind it.
  pub data Answers (disk : Disk) (m : PushMessage) (h : StreamHandler)
      : StreamHandler → PushMessage → Type 0 where
    to_manifest :
        m.type ≡ msg_push_manifest
        → Answers disk m h
            (handle_push_manifest deserialize m.payload h).0
            (handle_push_manifest deserialize m.payload h).1
    to_chunk :
        m.type ≡ msg_push_chunk
        → Answers disk m h
            (handle_push_chunk sha256 deserialize disk m.payload h).0
            (handle_push_chunk sha256 deserialize disk m.payload h).1
    to_batch :
        m.type ≡ msg_push_batch_complete
        → Answers disk m h
            (handle_push_batch_complete disk m.payload h).0
            (handle_push_batch_complete disk m.payload h).1

  -- A message that the loop does not serve.
  abbrev pub IsForeign : PushMessage → Type 0
  IsForeign m =
      (m.version ≢ current_push_version)
      ⊎ ((m.type ≢ msg_push_manifest)
          × (m.type ≢ msg_push_chunk)
          × (m.type ≢ msg_push_batch_complete))

  -- From the n-th message on, the bytes of a stream served: every message that can be read is answered
  -- by the handler of its type, up to the end of the stream, or to the first message that is foreign.
  pub data Served (disk : ℕ → Disk)
      : ℕ → Bytes → StreamHandler → List PushMessage → StreamHandler → Type 0 where
    closed :
        (n : ℕ) (r : Bytes) (h : StreamHandler) (e : PushError)
        → (read_push_message r).1 ≡ err e
        → Served disk n r h [] h
    ended :
        (n : ℕ) (r : Bytes) (h : StreamHandler) (m a : PushMessage)
        → (read_push_message r).1 ≡ ok m
        → IsForeign m
        → a.type ≡ msg_push_error
        → Served disk n r h (a ∷ []) h
    served :
        (n : ℕ) (r : Bytes) (h h' h'' : StreamHandler) (m a : PushMessage)
        (answers : List PushMessage)
        → (read_push_message r).1 ≡ ok m
        → m.version ≡ current_push_version
        → Answers (disk n) m h h' a
        → Served disk (suc n) (read_push_message r).0 h' answers h''
        → Served disk n r h (a ∷ answers) h''

  abbrev IsStep : Disk → PushMessage → StreamHandler → Reply → Type 0
  IsStep disk m h x =
      ((a : PushMessage) × IsForeign m × (a.type ≡ msg_push_error) × (x ≡ ends a))
      ⊎ ((h' : StreamHandler) × (a : PushMessage) × (m.version ≡ current_push_version)
          × Answers disk m h h' a
          × (x ≡ goes_on h' a))

  handle_message-IsStep :
      (disk : Disk) (m : PushMessage) (h : StreamHandler)
      → IsStep disk m h (handle_message sha256 deserialize disk m h)
  unfolding handle_message build_push_error
  handle_message-IsStep disk m h =
      let P = IsStep disk m h in
      if-cases P (not (m.version == current_push_version)) _ _
        (λ a. inl (_, inl (λ q. absurd (ground (arith, a, q))), refl, refl))
        (λ a.
          let v : m.version ≡ current_push_version = ground (arith, a) in
          if-cases P (m.type == msg_push_manifest) _ _
            (λ b. inr (_, _, v, to_manifest (ground (arith, b)), refl))
            (λ b.
              if-cases P (m.type == msg_push_chunk) _ _
                (λ c. inr (_, _, v, to_chunk (ground (arith, c)), refl))
                (λ c.
                  if-cases P (m.type == msg_push_batch_complete) _ _
                    (λ d. inr (_, _, v, to_batch (ground (arith, d)), refl))
                    (λ d.
                      let foreign = inr (
                        λ q. absurd (ground (arith, b, q)),
                        λ q. absurd (ground (arith, c, q)),
                        λ q. absurd (ground (arith, d, q)),
                      ) in
                      inl (_, foreign, refl, refl)))))

  Answers-Run :
      (disk : Disk) (m : PushMessage) (h h' : StreamHandler) (a : PushMessage)
      → Answers disk m h h' a
      → Serves h h'
  unfolding handle_push_chunk
  Answers-Run disk m h h' a (to_manifest e) = one (manifest m.payload _)
  Answers-Run disk m h h' a (to_chunk e) =
      chunk_committed-Run h (check_push_chunk sha256 disk m.payload h)
        (one (check disk m.payload _))
  Answers-Run disk m h h' a (to_batch e) = one (complete disk m.payload _)

  Served-Run :
      (disk : ℕ → Disk) {n : ℕ} {r : Bytes} {h h' : StreamHandler} {answers : List PushMessage}
      → Served disk n r h answers h'
      → Serves h h'
  Served-Run disk (closed n r h e q) = stay _
  Served-Run disk (ended n r h m a q f t) = stay _
  Served-Run disk (served n r h h' h'' m a answers q v s rest) =
      Run-append (Answers-Run (disk n) m h h' a s) (Served-Run disk rest)

  serve-Served :
      (disk : ℕ → Disk) (fuel n : ℕ) (r : Bytes) (h : StreamHandler)
      → length r < fuel
      → (h' : StreamHandler) × (answers : List PushMessage) × (serve sha256 deserialize disk fuel n
            r h
          ≡ some (h', answers))
        × Served disk n r h answers h'
  unfolding serve
  serve-Served disk zero n r h small = absurd (omega (arith, small))
  serve-Served disk (suc fuel) n r h small = elim (Result-cases (read_push_message r).1) [
    | inl (e, q) ↦ (h, [], rw (q, serve), closed n r h e q)
    | inr (m, q) ↦ elim (handle_message-IsStep (disk n) m h) [
      | inl (a, f, t, p) ↦ (h, a ∷ [], rw (q, p, serve), ended n r h m a q f t)
      | inr (h', a, v, s, p) ↦
          let (h'', answers, e, t) =
            serve-Served disk fuel (suc n) (read_push_message r).0 h'
              (omega (arith, read_push_message-length r m q, small)) in
          (h'', a ∷ answers, rw (q, p, e, serve), served n r h h' h'' m a answers q v s t)
    ]
  ]

  -- handleStream ends: fuel for the bytes of the stream and one more gives its result. Either the peer
  -- is barred, the only answer is an error and nothing changes; or it is not, and the stream is
  -- served: every message that can be read from it is answered by the handler of its type, up to
  -- the end or to a message of another version or type, which an error answers, and all that this
  -- does to the handler is a sequence of steps of the server.
  pub handle_stream-Served :
      (policy : Policy) (remote_peer : Bytes) (disk : ℕ → Disk) (r : Bytes) (h : StreamHandler)
      → (h' : StreamHandler) × (answers : List PushMessage) × (handle_stream sha256 deserialize
            policy remote_peer disk
            (suc (length r))
            r
            h
          ≡ some (h', answers))
        × ((IsBarred policy remote_peer
              × ((a : PushMessage) × (answers ≡ a ∷ []) × (a.type ≡ msg_push_error))
              × (h' ≡ h))
            ⊎ (¬ IsBarred policy remote_peer × Served disk 0 r h answers h' × Serves h h'))
  unfolding handle_stream build_push_error
  handle_stream-Served policy remote_peer disk r h =
      let listed = contains remote_peer policy.allowed_publishers in
      let P = λ (x : Option (StreamHandler × List PushMessage)).
        (h' : StreamHandler) × (answers : List PushMessage) × (x ≡ some (h', answers))
        × ((IsBarred policy remote_peer
              × ((a : PushMessage) × (answers ≡ a ∷ []) × (a.type ≡ msg_push_error))
              × (h' ≡ h))
            ⊎ (¬ IsBarred policy remote_peer × Served disk 0 r h answers h' × Serves h h')) in
      if-cases P (not policy.allow_push) _ _
        (λ a. (_, _, refl, inl (inl (ground (arith, a)), (_, refl, refl), refl)))
        (λ a.
          if-cases P (policy.allowlist && not listed) _ _
            (λ b.
              let barred = inr (ground (arith, b), ground (arith, b)) in
              (_, _, refl, inl (barred, (_, refl, refl), refl)))
            (λ b.
              let (h', answers, e, s) = serve-Served disk (suc (length r)) 0 r h (omega arith) in
              let free : ¬ IsBarred policy remote_peer = λ x. elim x [
                | inl q ↦ absurd (ground (arith, a, q))
                | inr (q, l) ↦ absurd (ground (arith, b, q, l))
              ] in
              (h', answers, e, inr (free, s, Served-Run disk s))))
