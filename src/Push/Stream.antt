-- ===== src/Push/Stream.antt =====
-- network/protocol/push/handler.go, handleStream. The answers go to the stream, whether it takes them
-- or not; what the file system does to the n-th message is an argument.
use cipher.Prelude.{
  ℕ, zero, suc, Bool, not, ◌&&◌, Option, none, some, List, [], ◌∷◌, Bytes, bytes, ◌==◌, ok, err,
  if◌then◌else◌,
}
use cipher.Distribution.Planner.{Manifest}
use cipher.Push.Messages.{
  PushMessage, current_push_version, status_malformed, status_unauthorized, msg_push_manifest,
  msg_push_chunk, msg_push_batch_complete, build_push_error, read_push_message,
}
use cipher.Push.Handler.{
  StreamHandler, Disk, Checked, answered, accepted, contains, check_push_chunk, commit_push_chunk,
  handle_push_manifest, handle_push_batch_complete,
}

-- What NewStreamHandler is given of its settings.
pub record Policy : Type 0 where
  pub allow_push : Bool
  pub allowlist : Bool
  pub allowed_publishers : List Bytes

-- What a message does: it ends the loop behind a last answer, or the loop goes on.
pub data Reply : Type 0 where
  ends : PushMessage → Reply
  goes_on : StreamHandler → PushMessage → Reply

abbrev pub continued : StreamHandler × PushMessage → Reply
continued (h, r) = goes_on h r

abbrev pub chunk_committed : StreamHandler × Checked → StreamHandler × PushMessage
chunk_committed (h, answered r) = (h, r)
chunk_committed (h, accepted i id) = commit_push_chunk i id h

module _ (sha256 : Bytes → Bytes) (deserialize : Bytes → Option Manifest) where
  -- handlePushChunk, when no other stream comes between its check and its commit.
  unfoldable pub handle_push_chunk : Disk → Bytes → StreamHandler → StreamHandler × PushMessage
  handle_push_chunk disk payload h = chunk_committed (check_push_chunk sha256 disk payload h)

  -- One pass of the loop, behind ReadPushMessage.
  unfoldable pub handle_message : Disk → PushMessage → StreamHandler → Reply
  handle_message disk m h =
      if not (m.version == current_push_version)
      then ends (build_push_error status_malformed (bytes "unsupported version"))
      else if m.type == msg_push_manifest
      then continued (handle_push_manifest deserialize m.payload h)
      else if m.type == msg_push_chunk
      then continued (handle_push_chunk disk m.payload h)
      else if m.type == msg_push_batch_complete
      then continued (handle_push_batch_complete disk m.payload h)
      else ends (build_push_error status_malformed (bytes "unknown message type"))

  -- The loop, with the number of the messages that it has read: none when the fuel does not do.
  unfoldable pub serve :
      (ℕ → Disk) → ℕ → ℕ → Bytes → StreamHandler → Option (StreamHandler × List PushMessage)
  serve disk zero n r h = none
  serve disk (suc fuel) n r h =
      let (rest, read) = read_push_message r in
      elim read [
        | err e ↦ some (h, [])
        | ok m ↦ elim (handle_message (disk n) m h) [
          | ends a ↦ some (h, a ∷ [])
          | goes_on h' a ↦ elim (serve disk fuel (suc n) rest h') [
            | none ↦ none
            | some (h'', answers) ↦ some (h'', a ∷ answers)
          ]
        ]
      ]

  -- handleStream
  unfoldable pub handle_stream :
      Policy
      → Bytes
      → (ℕ → Disk)
      → ℕ
      → Bytes
      → StreamHandler
      → Option (StreamHandler × List PushMessage)
  handle_stream policy remote_peer disk fuel r h =
      if not policy.allow_push
      then some (h, build_push_error status_unauthorized (bytes "provider push disabled") ∷ [])
      else if policy.allowlist && not (contains remote_peer policy.allowed_publishers)
      then some (h, build_push_error status_unauthorized (bytes "publisher not in allowlist") ∷ [])
      else serve disk fuel 0 r h
