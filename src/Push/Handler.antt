-- ===== src/Push/Handler.antt =====
-- network/protocol/push/handler.go. `sessions` holds pointers to session objects, which a handler
-- keeps across the moments when it gives up the mutex; an object is an index into `objects`. The
-- content engine's store is a map of the chunks and one of the manifests; what the file system does
-- to a call is an argument, and so is json.Unmarshal.
use cipher.Prelude.{
  ℕ, zero, suc, Bool, true, false, not, ◌&&◌, ◌||◌, Option, none, some, List, [], ◌∷◌, ◌++◌, Bytes,
  bytes, bytes_eq, length, get_elem?, ltb, ok, err, if◌then◌else◌, lookup, insert,
}
use cipher.Chunk.Messages.{Chunk}
use cipher.Distribution.Planner.{Manifest}
use cipher.Push.Messages.{
  PushMessage, status_ok, status_malformed, status_incomplete, status_hash_mismatch,
  status_not_in_assigned_set, status_io_error, parse_push_manifest, parse_push_chunk,
  parse_push_batch_complete, build_push_error, build_push_manifest_ack, build_push_chunk_ack,
  build_push_batch_complete_ack,
}

-- The two times are not kept: nothing reads them.
pub record PendingSession : Type 0 where
  pub content_id : Bytes
  pub manifest : Manifest
  pub manifest_bytes : Bytes
  pub expected_chunks : List Bytes
  pub committed_chunks : List (Bytes × Bool)

pub record StreamHandler : Type 0 where
  pub objects : List PendingSession
  pub sessions : List (Bytes × ℕ)
  pub chunks : List (Bytes × Chunk)
  pub manifests : List (Bytes × Bytes)

-- What the file system does to HasChunk, PutChunk and PutManifestBytes.
pub record Disk : Type 0 where
  pub answers : Bool
  pub takes_chunk : Bool
  pub takes_manifest : Bool

unfoldable pub contains : Bytes → List Bytes → Bool
contains k [] = false
contains k (x ∷ xs) = bytes_eq x k || contains k xs

-- The keys of `expectedMap`: an id that is listed twice is one key.
unfoldable pub distinct : List Bytes → List Bytes → List Bytes
distinct [] kept = kept
distinct (id ∷ ids) kept = distinct ids (if contains id kept then kept else kept ++ (id ∷ []))

-- The session object at an index with one more committed chunk.
unfoldable pub commit_at : ℕ → Bytes → List PendingSession → List PendingSession
commit_at i chunk_id [] = []
commit_at zero chunk_id (s ∷ ss) =
    record s { committed_chunks = insert chunk_id true s.committed_chunks } ∷ ss
commit_at (suc i) chunk_id (s ∷ ss) = s ∷ commit_at i chunk_id ss

-- `h.sessions[contentID]`, with the object that it points to.
abbrev pub object_of : List PendingSession → Option ℕ → Option (ℕ × PendingSession)
object_of objects none = none
object_of objects (some i) = elim (get_elem? objects i) [ none ↦ none | some s ↦ some (i, s) ]

unfoldable pub session_of : Bytes → StreamHandler → Option (ℕ × PendingSession)
session_of content_id h = object_of h.objects (lookup content_id h.sessions)

module _ (deserialize : Bytes → Option Manifest) where
  -- handlePushManifest: its answer is written to the stream.
  unfoldable pub handle_push_manifest : Bytes → StreamHandler → StreamHandler × PushMessage
  handle_push_manifest payload h = elim (parse_push_manifest payload) [
    | err e ↦ (h, build_push_error status_malformed (bytes "malformed manifest payload"))
    | ok (content_id, assigned, manifest_bytes) ↦ elim (deserialize manifest_bytes) [
      | none ↦ (h, build_push_error status_malformed (bytes "invalid manifest JSON"))
      | some m ↦
          if not (bytes_eq m.content_id content_id)
          then (h, build_push_error status_malformed (bytes "contentID mismatch"))
          else (
            record h {
              objects =
                  h.objects
                  ++ (record {
                    content_id = content_id;
                    manifest = m;
                    manifest_bytes = manifest_bytes;
                    expected_chunks = distinct assigned [];
                    committed_chunks = [];
                  }
                      ∷ []);
              sessions = insert content_id (length h.objects) h.sessions;
            },
            build_push_manifest_ack content_id status_ok,
          )
    ]
  ]

-- handlePushChunk up to the place where it takes the mutex again: an answer that ends it, or the
-- session object and the chunk that it is to commit.
pub data Checked : Type 0 where
  answered : PushMessage → Checked
  accepted : ℕ → Bytes → Checked

-- `has, _ := h.engine.HasChunk(...)`
abbrev pub present : Option Chunk → Bool
present none = false
present (some c) = true

-- HasChunk and, if there is none, PutChunk.
unfoldable pub store_chunk : Disk → ℕ → Chunk → StreamHandler → StreamHandler × Checked
store_chunk disk i c h =
    if disk.answers && present (lookup c.header.id h.chunks)
    then (h, accepted i c.header.id)
    else if not disk.takes_chunk
    then (h, answered (build_push_chunk_ack c.header.id status_io_error))
    else (record h { chunks = insert c.header.id c h.chunks }, accepted i c.header.id)

module _ (sha256 : Bytes → Bytes) where
  -- handlePushChunk with the session that it found.
  unfoldable pub check_chunk :
      Disk → Chunk → StreamHandler → Option (ℕ × PendingSession) → StreamHandler × Checked
  check_chunk disk c h none =
      (h, answered (build_push_chunk_ack c.header.id status_not_in_assigned_set))
  check_chunk disk c h (some (i, s)) =
      if not (contains c.header.id s.expected_chunks)
      then (h, answered (build_push_chunk_ack c.header.id status_not_in_assigned_set))
      else if not (contains c.header.id s.manifest.chunk_ids)
      then (h, answered (build_push_chunk_ack c.header.id status_malformed))
      else if not (bytes_eq (sha256 c.data_bytes) c.header.id)
      then (h, answered (build_push_chunk_ack c.header.id status_hash_mismatch))
      else store_chunk disk i c h

  unfoldable pub check_push_chunk : Disk → Bytes → StreamHandler → StreamHandler × Checked
  check_push_chunk disk payload h = elim (parse_push_chunk payload) [
    | err e ↦ (h, answered (build_push_error status_malformed (bytes "malformed chunk payload")))
    | ok (content_id, c) ↦ check_chunk disk c h (session_of content_id h)
  ]

-- The end of handlePushChunk, under the mutex.
unfoldable pub commit_push_chunk : ℕ → Bytes → StreamHandler → StreamHandler × PushMessage
commit_push_chunk i chunk_id h =
    (record h { objects = commit_at i chunk_id h.objects }, build_push_chunk_ack chunk_id status_ok)

-- The loop over `session.ExpectedChunks`.
unfoldable pub all_committed : List Bytes → List (Bytes × Bool) → Bool
all_committed [] committed = true
all_committed (id ∷ ids) committed = elim (lookup id committed) [
  | none ↦ false
  | some marked ↦ marked && all_committed ids committed
]

-- `delete(h.sessions, contentID)`
unfoldable pub delete : Bytes → List (Bytes × ℕ) → List (Bytes × ℕ)
delete k [] = []
delete k ((j, i) ∷ m) = let rest = delete k m in if bytes_eq j k then rest else (j, i) ∷ rest

-- handlePushBatchComplete with the session that it found.
unfoldable pub complete_batch :
    Disk → Bytes → StreamHandler → Option (ℕ × PendingSession) → StreamHandler × PushMessage
complete_batch disk content_id h none =
    (h, build_push_batch_complete_ack content_id status_incomplete)
complete_batch disk content_id h (some (i, s)) =
    if not (all_committed s.expected_chunks s.committed_chunks)
      || ltb (length s.committed_chunks) (length s.expected_chunks)
    then (h, build_push_batch_complete_ack content_id status_incomplete)
    else if not disk.takes_manifest
    then (h, build_push_batch_complete_ack content_id status_io_error)
    else (
      record h {
        manifests = insert content_id s.manifest_bytes h.manifests;
        sessions = delete content_id h.sessions;
      },
      build_push_batch_complete_ack content_id status_ok,
    )

unfoldable pub handle_push_batch_complete :
    Disk → Bytes → StreamHandler → StreamHandler × PushMessage
handle_push_batch_complete disk payload h = elim (parse_push_batch_complete payload) [
  | err e ↦ (h, build_push_error status_malformed (bytes "malformed batch complete payload"))
  | ok content_id ↦ complete_batch disk content_id h (session_of content_id h)
]
