-- ===== src/Push/Uploads.antt =====
-- What an accepted batch of the push protocol promises, whatever streams the handler served before.
use cipher.Prelude.{ℕ, ◌≡◌, Option, none, some, List, [], Bytes, All, lookup, ok}
use cipher.Chunk.Messages.{Chunk}
use cipher.Distribution.Planner.{Manifest}
use cipher.Push.Messages.{PushMessage}
use cipher.Push.Client.{check_batch_complete_ack}
use cipher.Push.Handler.{PendingSession, StreamHandler, session_of}
use cipher.Push.Sound.{Kept}
use cipher.Push.Steps.{Server}

-- A handler with no session, over a store.
abbrev pub fresh_server : List (Bytes × Chunk) → List (Bytes × Bytes) → Server
fresh_server chunks manifests = record {
  handler = record { objects = []; sessions = []; chunks = chunks; manifests = manifests };
  flights = [];
}

-- What SendBatchComplete takes for an acknowledgement of the batch.
abbrev pub IsAccepted : Bytes → PushMessage → Type 0
IsAccepted id r = check_batch_complete_ack id r ≡ ok tt

module _ (sha256 : Bytes → Bytes) (deserialize : Bytes → Option Manifest) where
  -- The content had a session when the handler was `h`, decoded from the bytes that `h'` stores for
  -- it, each of its assigned chunks is kept, and in `h'` the session is gone.
  abbrev pub Uploaded : Bytes → StreamHandler → StreamHandler → Type 0
  Uploaded id h h' =
      (i : ℕ) × (s : PendingSession) × (session_of id h ≡ some (i, s))
      × (s.manifest.content_id ≡ id)
      × (deserialize s.manifest_bytes ≡ some s.manifest)
      × (lookup id h'.manifests ≡ some s.manifest_bytes)
      × All (Kept sha256 h'.chunks s) s.expected_chunks
      × (lookup id h'.sessions ≡ none)
