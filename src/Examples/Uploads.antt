-- ===== src/Examples/Uploads.antt =====
-- The theorems on network/protocol/push at an upload of one chunk.
use cipher.Prelude.{
  map, ℕ, suc, ◌+◌, ◌≡◌, refl, ◌⊎◌, inl, inr, ◌++◌, Bool, true, false, not, ◌&&◌, Option, some,
  none, List, [], ◌∷◌, Bytes, ok, arith, length, lookup, bytes_eq, if◌then◌else◌,
}
use cipher.Chunk.Messages.{Chunk}
use cipher.Distribution.Planner.{Manifest}
use cipher.Push.Messages.{
  PushMessage, write_push_message, read_push_message, build_push_manifest, parse_push_manifest,
  build_push_chunk, parse_push_chunk, build_push_manifest_ack, parse_push_manifest_ack,
  build_push_chunk_ack, parse_push_chunk_ack, build_push_batch_complete_ack,
  parse_push_batch_complete_ack, msg_push_error,
}
use cipher.Push.Handler.{
  StreamHandler, Disk, contains, check_push_chunk, commit_push_chunk, handle_push_manifest,
  handle_push_batch_complete,
}
use cipher.Push.Stream.{Policy, handle_stream}
use cipher.Push.Steps.{Server, checked}
use cipher.Push.RoundTrip.{read_push_message-write_push_message, push_parsers-builders}
use cipher.Push.Serving.{Serves, Served, IsBarred, handle_stream-Served}
use cipher.Push.Messages.{
  envelope, build_push_batch_complete, msg_push_manifest_ack, msg_push_chunk_ack,
  msg_push_batch_complete_ack,
}
use cipher.Prelude.Encoding.{le_bytes}
use cipher.Push.Uploads.{fresh_server}
use cipher.Examples.StandIns.{zeros, digest}

abbrev content : Bytes
content = 1 ∷ zeros 31

abbrev data_bytes : Bytes
data_bytes = 8 ∷ 9 ∷ []

abbrev piece : Chunk
piece = record {
  header = record {
    version = 1;
    id = digest data_bytes;
    index = 0;
    offset = 0;
    plain_size = 2;
    cipher_size = 2;
    nonce = zeros 12;
  };
  data_bytes = data_bytes;
}

-- The JSON `{}` stands for the manifest of the content.
abbrev deserialize : Bytes → Option Manifest
deserialize b =
    if bytes_eq b (123 ∷ 125 ∷ [])
    then some (record { content_id = content; chunk_ids = digest data_bytes ∷ [] })
    else none

abbrev disk : Disk
disk = record { answers = true; takes_chunk = true; takes_manifest = true }

abbrev start : Server
start = fresh_server [] []

abbrev with_session : Server
with_session = record start {
  handler =
      (handle_push_manifest deserialize
        (build_push_manifest content (digest data_bytes ∷ []) (123 ∷ 125 ∷ [])).payload
        start.handler).0;
}

abbrev with_chunk : Server
with_chunk =
    checked
      (check_push_chunk digest disk (build_push_chunk content piece).payload with_session.handler)
      []

abbrev with_commit : Server
with_commit = record {
  handler = (commit_push_chunk 0 (digest data_bytes) with_chunk.handler).0;
  flights = [];
}

abbrev policy : Policy
policy = record { allow_push = true; allowlist = true; allowed_publishers = (5 ∷ []) ∷ [] }

-- The frame of a message, as writePushMessage writes it.
abbrev frame : PushMessage → Bytes
frame m = le_bytes 4 (length (envelope m)) ++ envelope m

-- The client's side of an upload: the manifest, the chunk and the end of the batch.
abbrev stream : Bytes
stream =
    frame (build_push_manifest content (digest data_bytes ∷ []) (123 ∷ 125 ∷ []))
    ++ frame (build_push_chunk content piece)
    ++ frame (build_push_batch_complete content)

abbrev answer_types : Option (StreamHandler × List PushMessage) → List ℕ
answer_types none = []
answer_types (some (h, answers)) = map (λ (a : PushMessage). a.type) answers

handle_stream_answers :
    answer_types (
      handle_stream digest deserialize policy
        (5 ∷ [])
        (λ n. disk)
        (suc (length stream))
        stream
        start.handler)
    ≡ msg_push_manifest_ack ∷ msg_push_chunk_ack ∷ msg_push_batch_complete_ack ∷ []
unfolding handle_stream cipher.Push.Stream.serve cipher.Push.Stream.handle_message
    cipher.Push.Stream.handle_push_chunk read_push_message cipher.Push.Messages.read_push_sized
    cipher.Push.Messages.push_message_of cipher.Chunk.Messages.read_full build_push_manifest
    handle_push_manifest parse_push_manifest build_push_chunk parse_push_chunk check_push_chunk
    bytes_eq cipher.Chunk.Messages.header_bytes cipher.Prelude.Encoding.le_bytes
    cipher.Push.Handler.check_chunk cipher.Push.Handler.session_of lookup
    cipher.Push.Messages.join_ids cipher.Prelude.Encoding.le_value cipher.Prelude.insert contains
    cipher.Push.Handler.distinct cipher.Push.Messages.split_ids cipher.Chunk.Messages.header_of
    cipher.Push.Handler.store_chunk handle_push_batch_complete
    cipher.Push.Messages.parse_push_batch_complete build_push_batch_complete
    cipher.Push.Handler.complete_batch commit_push_chunk cipher.Push.Handler.commit_at
    cipher.Push.Handler.all_committed build_push_batch_complete_ack build_push_manifest_ack
    cipher.Push.Messages.build_push_chunk_ack cipher.Push.Messages.build_push_error
handle_stream_answers = refl

handle_stream-Served_example :
    (h' : StreamHandler) × (answers : List PushMessage) × (handle_stream digest deserialize policy
        (5 ∷ [])
        (λ n. disk)
        (suc (length stream))
        stream
        start.handler
      ≡ some (h', answers))
    × ((IsBarred policy (5 ∷ [])
          × ((a : PushMessage) × (answers ≡ a ∷ []) × (a.type ≡ msg_push_error))
          × (h' ≡ start.handler))
        ⊎ (¬ IsBarred policy (5 ∷ [])
            × Served digest deserialize (λ n. disk) 0 stream start.handler answers h'
            × Serves digest deserialize start.handler h'))
handle_stream-Served_example =
    handle_stream-Served digest deserialize policy (5 ∷ []) (λ n. disk) stream start.handler

abbrev refusal : PushMessage
refusal = record { version = 1; type = 0x16; payload = 3 ∷ [] }

read_push_message-write_push_message_example :
    (w : Bytes) × (write_push_message refusal ≡ ok w)
    × (read_push_message (w ++ (7 ∷ [])) ≡ (7 ∷ [], ok refusal))
read_push_message-write_push_message_example =
    read_push_message-write_push_message refusal (7 ∷ [])
      (record { version_bound = omega arith; size_bound = omega arith })

push_parsers-builders_example :
    (parse_push_manifest
        (build_push_manifest content (digest data_bytes ∷ []) (123 ∷ 125 ∷ [])).payload
      ≡ ok (content, digest data_bytes ∷ [], 123 ∷ 125 ∷ []))
    × (parse_push_chunk (build_push_chunk content piece).payload ≡ ok (content, piece))
    × (parse_push_manifest_ack (build_push_manifest_ack content 4).payload ≡ ok (content, 4))
    × (parse_push_chunk_ack (build_push_chunk_ack content 4).payload ≡ ok (content, 4))
    × (parse_push_batch_complete_ack (build_push_batch_complete_ack content 4).payload
        ≡ ok (content, 4))
push_parsers-builders_example =
    push_parsers-builders content (digest data_bytes ∷ []) (123 ∷ 125 ∷ []) piece 4 refl
      (omega arith) (refl, tt)
      (record {
        version_bound = omega arith;
        id_size = refl;
        index_bound = omega arith;
        offset_bound = omega arith;
        plain_bound = omega arith;
        cipher_bound = omega arith;
        nonce_size = refl;
      })
