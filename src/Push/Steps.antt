-- ===== src/Push/Steps.antt =====
-- The steps of the streams that one push handler serves. A chunk is checked in one step and committed
-- in a later one, and anything may happen in between.
use cipher.Prelude.{
  ℕ, ◌≡◌, refl, subst, inl, inr, Option, some, List, [], ◌∷◌, ◌++◌, Bytes, length, get_elem?, All,
  All-append, lookup, lookup-insert_cases,
}
use cipher.Distribution.Planner.{Manifest}
use cipher.Push.Handler.{
  PendingSession, StreamHandler, Disk, Checked, answered, accepted, commit_at, distinct,
  check_push_chunk, commit_push_chunk, handle_push_manifest, handle_push_batch_complete,
}
use cipher.Push.Checks.{manifest_effect, check_push_chunk-Checks}
use cipher.Push.Batches.{handle_push_batch_complete-Completes}
use cipher.Push.Sound.{
  Flight, Points, Kept, Object, IsSound, Held-insert_self, Kept-insert, Object-insert,
  commit_at-Object, get_elem?-commit_at, get_elem?-append, get_elem?-append_last, All-insert,
  All-delete,
}

-- The handler and the chunks that are checked and not yet committed, over all streams.
pub record Server : Type 0 where
  pub handler : StreamHandler
  pub flights : List Flight

-- The server behind the check of a chunk.
abbrev pub checked : StreamHandler × Checked → List Flight → Server
checked (h, answered r) flights = record { handler = h; flights = flights }
checked (h, accepted i id) flights = record { handler = h; flights = (i, id) ∷ flights }

module _ (sha256 : Bytes → Bytes) (deserialize : Bytes → Option Manifest) where
  pub data Step : Server → Server → Type 0 where
    manifest :
        (payload : Bytes) (v : Server)
        → Step v (record v { handler = (handle_push_manifest deserialize payload v.handler).0 })
    check :
        (disk : Disk) (payload : Bytes) (v : Server)
        → Step v (checked (check_push_chunk sha256 disk payload v.handler) v.flights)
    commit :
        (i : ℕ) (id : Bytes) (before after : List Flight) (v : Server)
        → v.flights ≡ before ++ ((i, id) ∷ after)
        → Step v
            (record { handler = (commit_push_chunk i id v.handler).0; flights = before ++ after })
    complete :
        (disk : Disk) (payload : Bytes) (v : Server)
        → Step v (record v { handler = (handle_push_batch_complete disk payload v.handler).0 })

  pub data Run : Server → Server → Type 0 where
    stay : (v : Server) → Run v v
    more : (v v' v'' : Server) → Run v v' → Step v' v'' → Run v v''

  abbrev pub Sound : Server → Type 0
  Sound v = IsSound sha256 deserialize v.handler v.flights

  -- The invariants of pointers and flights when objects and chunks grow.
  Points-append :
      (ss : List PendingSession) (t : PendingSession) (m : List (Bytes × ℕ))
      → All (Points ss) m
      → All (Points (ss ++ (t ∷ []))) m
  Points-append ss t [] h = tt
  Points-append ss t (e ∷ m) h =
      let (s, g, n) = h.0 in ((s, get_elem?-append ss t e.1 s g, n), Points-append ss t m h.1)

  Points-commit_at :
      (j : ℕ) (id : Bytes) (ss : List PendingSession) (m : List (Bytes × ℕ))
      → All (Points ss) m
      → All (Points (commit_at j id ss)) m
  Points-commit_at j id ss [] h = tt
  Points-commit_at j id ss (e ∷ m) h =
      let (s, g, n) = h.0 in
      let (c, g') = get_elem?-commit_at j id ss e.1 s g in
      ((record s { committed_chunks = c }, g', n), Points-commit_at j id ss m h.1)

  -- A flight whose object and chunk are there.
  abbrev pub Flies : StreamHandler → Flight → Type 0
  Flies h f = (s : PendingSession) × (get_elem? h.objects f.0 ≡ some s) × Kept sha256 h.chunks s f.1

  All-map :
      (P Q : Flight → Type 0) (fs : List Flight) → ((f : Flight) → P f → Q f) → All P fs → All Q fs
  All-map P Q [] g h = tt
  All-map P Q (f ∷ fs) g h = (g f h.0, All-map P Q fs g h.1)

  All-remove :
      (P : Flight → Type 0) (before after : List Flight) (f : Flight)
      → All P (before ++ (f ∷ after))
      → P f × All P (before ++ after)
  All-remove P [] after f h = (h.0, h.1)
  All-remove P (b ∷ before) after f h =
      let (x, y) = All-remove P before after f h.1 in (x, (h.0, y))

  All-append_one :
      (P : PendingSession → Type 0) (ss : List PendingSession) (t : PendingSession)
      → All P ss
      → P t
      → All P (ss ++ (t ∷ []))
  All-append_one P ss t h p = All-append P ss (t ∷ []) h (p, tt)

  manifest-IsSound :
      (payload : Bytes) (h : StreamHandler) (fs : List Flight)
      → IsSound sha256 deserialize h fs
      → IsSound sha256 deserialize (handle_push_manifest deserialize payload h).0 fs
  unfolding lookup
  manifest-IsSound payload h fs sound = elim (manifest_effect deserialize payload h) [
    | inl e ↦ rw e sound
    | inr (id, assigned, mb, m, d, n, e) ↦
        let t : PendingSession = record {
          content_id = id;
          manifest = m;
          manifest_bytes = mb;
          expected_chunks = distinct assigned [];
          committed_chunks = [];
        } in
        rw e (record {
          hashed = sound.hashed;
          objects =
              All-append_one (Object sha256 deserialize h.chunks) h.objects t sound.objects
                (record { decoded = d; named = n; committed = λ j l. absurd (cc) });
          pointers =
              All-insert (Points (h.objects ++ (t ∷ []))) id (length h.objects) h.sessions
                (t, get_elem?-append_last h.objects t, refl)
                (Points-append h.objects t h.sessions sound.pointers);
          flying =
              All-map (Flies h) _ fs
                (λ f x. let (s, g, k) = x in (s, get_elem?-append h.objects t f.0 s g, k))
                sound.flying;
        })
  ]

  check-IsSound :
      (disk : Disk) (payload : Bytes) (h : StreamHandler) (fs : List Flight)
      → IsSound sha256 deserialize h fs
      → Sound (checked (check_push_chunk sha256 disk payload h) fs)
  check-IsSound disk payload h fs sound = elim (check_push_chunk-Checks sha256 disk h payload) [
    | inl (r, e) ↦ rw e sound
    | inr (i, s, k, g, a, b, d, inl (k', l, e)) ↦ rw e (record {
      hashed = sound.hashed;
      objects = sound.objects;
      pointers = sound.pointers;
      flying = ((s, g, ((k', l, sound.hashed k.header.id k' l), a, b)), sound.flying);
    })
    | inr (i, s, k, g, a, b, d, inr e) ↦
        let id = k.header.id in
        rw e (record {
          hashed = λ j m l. elim (lookup-insert_cases id j k m h.chunks l) [
            | inl (x, y) ↦ rw (← y, ← x) d
            | inr (x, y) ↦ sound.hashed j m y
          ];
          objects = Object-insert sha256 id k h.chunks d deserialize h.objects sound.objects;
          pointers = sound.pointers;
          flying = (
            (s, g, (Held-insert_self sha256 id k h.chunks d, a, b)),
            All-map (Flies h) _ fs
                (λ f x. let (t, u, w) = x in (t, u, Kept-insert sha256 id k h.chunks d t f.1 w))
                sound.flying,
          );
        })
  ]

  commit-IsSound :
      (i : ℕ) (id : Bytes) (before after : List Flight) (h : StreamHandler)
      → IsSound sha256 deserialize h (before ++ ((i, id) ∷ after))
      → IsSound sha256 deserialize (commit_push_chunk i id h).0 (before ++ after)
  unfolding commit_push_chunk
  commit-IsSound i id before after h sound =
      let ((s, g, k), rest) = All-remove (Flies h) before after (i, id) sound.flying in
      record {
        hashed = sound.hashed;
        objects = commit_at-Object sha256 deserialize h.chunks i id h.objects s g k sound.objects;
        pointers = Points-commit_at i id h.objects h.sessions sound.pointers;
        flying =
            All-map (Flies h) _ (before ++ after)
              (λ f x.
                let (t, u, w) = x in
                let (c, u') = get_elem?-commit_at i id h.objects f.0 t u in
                (record t { committed_chunks = c }, u', w))
              rest;
      }

  complete-IsSound :
      (disk : Disk) (payload : Bytes) (h : StreamHandler) (fs : List Flight)
      → IsSound sha256 deserialize h fs
      → IsSound sha256 deserialize (handle_push_batch_complete disk payload h).0 fs
  complete-IsSound disk payload h fs sound =
      elim (handle_push_batch_complete-Completes disk payload h) [
        | inl (r, n, e) ↦ rw e sound
        | inr (id, i, s, z, g, a, e) ↦ rw e (record {
          hashed = sound.hashed;
          objects = sound.objects;
          pointers = All-delete (Points h.objects) id h.sessions sound.pointers;
          flying = sound.flying;
        })
      ]

  Step-Sound : {v v' : Server} → Step v v' → Sound v → Sound v'
  Step-Sound (manifest payload v) h = manifest-IsSound payload v.handler v.flights h
  Step-Sound (check disk payload v) h = check-IsSound disk payload v.handler v.flights h
  Step-Sound (commit i id before after v e) h =
      commit-IsSound i id before after v.handler
        (subst (λ fs. IsSound sha256 deserialize v.handler fs) e h)
  Step-Sound (complete disk payload v) h = complete-IsSound disk payload v.handler v.flights h

  pub Run-Sound : {v v' : Server} → Run v v' → Sound v → Sound v'
  Run-Sound (stay v) h = h
  Run-Sound (more v v' v'' r s) h = Step-Sound s (Run-Sound r h)
