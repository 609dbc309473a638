-- ===== src/Push/Messages.antt =====
-- network/protocol/push/messages.go. As in the chunk protocol a reader is the bytes that are left in
-- it, and an identifier is a list of 32 bytes.
use cipher.Prelude.{
  ℕ, zero, suc, ◌+◌, ◌*◌, ◌%◌, ◌^◌, Option, none, some, List, [], ◌∷◌, ◌++◌, Bytes, length, take,
  drop, get_or, ltb, ◌==◌, Result, ok, err, if◌then◌else◌,
}
use cipher.Prelude.Encoding.{le_bytes, le_value}
use cipher.Chunk.Messages.{Chunk, read_full, header_bytes, header_of, header_size}

abbrev pub current_push_version : ℕ
current_push_version = 1

abbrev pub max_message_size : ℕ
max_message_size = 4 * 1024 * 1024

abbrev pub msg_push_manifest : ℕ
msg_push_manifest = 0x10

abbrev pub msg_push_manifest_ack : ℕ
msg_push_manifest_ack = 0x11

abbrev pub msg_push_chunk : ℕ
msg_push_chunk = 0x12

abbrev pub msg_push_chunk_ack : ℕ
msg_push_chunk_ack = 0x13

abbrev pub msg_push_batch_complete : ℕ
msg_push_batch_complete = 0x14

abbrev pub msg_push_batch_complete_ack : ℕ
msg_push_batch_complete_ack = 0x15

abbrev pub msg_push_error : ℕ
msg_push_error = 0x16

abbrev pub status_ok : ℕ
status_ok = 0

abbrev pub status_unauthorized : ℕ
status_unauthorized = 1

abbrev pub status_malformed : ℕ
status_malformed = 3

abbrev pub status_incomplete : ℕ
status_incomplete = 4

abbrev pub status_hash_mismatch : ℕ
status_hash_mismatch = 5

abbrev pub status_not_in_assigned_set : ℕ
status_not_in_assigned_set = 6

abbrev pub status_io_error : ℕ
status_io_error = 7

pub record PushMessage : Type 0 where
  pub version : ℕ
  pub type : ℕ
  pub payload : Bytes

pub data PushError : Type 0 where
  too_large too_short read_failed invalid_payload : PushError

-- The envelope: the version, the type and the payload.
abbrev pub envelope : PushMessage → Bytes
envelope m = le_bytes 2 m.version ++ (m.type ∷ m.payload)

-- WritePushMessage: the bytes that go to the writer.
unfoldable pub write_push_message : PushMessage → Result PushError Bytes
write_push_message m =
    let size = length (envelope m) % 2 ^ 32 in
    if ltb max_message_size size then err too_large else ok (le_bytes 4 size ++ envelope m)

-- The fields of a message from its frame.
unfoldable pub push_message_of : Bytes → Result PushError PushMessage
push_message_of (a ∷ b ∷ t ∷ p) =
    ok (record { version = le_value (a ∷ b ∷ []); type = t; payload = p })
push_message_of _ = err read_failed

abbrev pub push_frame_read : Bytes × Option Bytes → Bytes × Result PushError PushMessage
push_frame_read (rest, none) = (rest, err read_failed)
push_frame_read (rest, some frame) = (rest, push_message_of frame)

-- ReadPushMessage behind the 4 bytes of the size.
unfoldable pub read_push_sized : ℕ → Bytes → Bytes × Result PushError PushMessage
read_push_sized size r =
    if ltb max_message_size size
    then (r, err too_large)
    else if ltb size 3
    then (r, err too_short)
    else push_frame_read (read_full size r)

abbrev pub push_size_read : Bytes × Option Bytes → Bytes × Result PushError PushMessage
push_size_read (rest, none) = (rest, err read_failed)
push_size_read (rest, some p) = read_push_sized (le_value p) rest

-- ReadPushMessage: what is left in the reader, and the message.
unfoldable pub read_push_message : Bytes → Bytes × Result PushError PushMessage
read_push_message r = push_size_read (read_full 4 r)

abbrev push_message : ℕ → Bytes → PushMessage
push_message t p = record { version = current_push_version; type = t; payload = p }

-- The chunk ids one after the other.
unfoldable pub join_ids : List Bytes → Bytes
join_ids [] = []
join_ids (id ∷ ids) = id ++ join_ids ids

-- BuildPushManifest
unfoldable pub build_push_manifest : Bytes → List Bytes → Bytes → PushMessage
build_push_manifest content_id ids manifest_data =
    push_message msg_push_manifest
      (content_id ++ (le_bytes 4 (length ids % 2 ^ 32) ++ (join_ids ids ++ manifest_data)))

-- The loop of ParsePushManifest: `n` ids of 32 bytes.
unfoldable pub split_ids : ℕ → Bytes → List Bytes
split_ids zero b = []
split_ids (suc n) b = take 32 b ∷ split_ids n (drop 32 b)

-- ParsePushManifest: the content id, the assigned chunks and the manifest's bytes.
unfoldable pub parse_push_manifest : Bytes → Result PushError (Bytes × List Bytes × Bytes)
parse_push_manifest payload =
    let count = le_value (take 4 (drop 32 payload)) in
    if ltb (length payload) 36
    then err invalid_payload
    else if ltb (length payload) (36 + count * 32)
    then err invalid_payload
    else ok (take 32 payload, split_ids count (drop 36 payload), drop (36 + count * 32) payload)

-- The acknowledgements of all three kinds: an id and a status.
abbrev parse_status : Bytes → Result PushError (Bytes × ℕ)
parse_status payload =
    if length payload == 33 then ok (take 32 payload, get_or payload 32 0) else err invalid_payload

unfoldable pub build_push_manifest_ack : Bytes → ℕ → PushMessage
build_push_manifest_ack content_id status =
    push_message msg_push_manifest_ack (content_id ++ (status ∷ []))

unfoldable pub parse_push_manifest_ack : Bytes → Result PushError (Bytes × ℕ)
parse_push_manifest_ack payload = parse_status payload

-- BuildPushChunk
unfoldable pub build_push_chunk : Bytes → Chunk → PushMessage
build_push_chunk content_id c =
    push_message msg_push_chunk (content_id ++ (header_bytes c.header ++ c.data_bytes))

-- ParsePushChunk
unfoldable pub parse_push_chunk : Bytes → Result PushError (Bytes × Chunk)
parse_push_chunk payload =
    let rest = drop 32 payload in
    if ltb (length payload) (32 + header_size)
    then err invalid_payload
    else ok
        (take 32 payload, record { header = header_of rest; data_bytes = drop header_size rest })

unfoldable pub build_push_chunk_ack : Bytes → ℕ → PushMessage
build_push_chunk_ack chunk_id status = push_message msg_push_chunk_ack (chunk_id ++ (status ∷ []))

unfoldable pub parse_push_chunk_ack : Bytes → Result PushError (Bytes × ℕ)
parse_push_chunk_ack payload = parse_status payload

unfoldable pub build_push_batch_complete : Bytes → PushMessage
build_push_batch_complete content_id = push_message msg_push_batch_complete content_id

unfoldable pub parse_push_batch_complete : Bytes → Result PushError Bytes
parse_push_batch_complete payload = if length payload == 32 then ok payload else err invalid_payload

unfoldable pub build_push_batch_complete_ack : Bytes → ℕ → PushMessage
build_push_batch_complete_ack content_id status =
    push_message msg_push_batch_complete_ack (content_id ++ (status ∷ []))

unfoldable pub parse_push_batch_complete_ack : Bytes → Result PushError (Bytes × ℕ)
parse_push_batch_complete_ack payload = parse_status payload

unfoldable pub build_push_error : ℕ → Bytes → PushMessage
build_push_error code msg = push_message msg_push_error (code ∷ msg)

unfoldable pub parse_push_error : Bytes → Result PushError (ℕ × Bytes)
parse_push_error [] = err invalid_payload
parse_push_error (code ∷ msg) = ok (code, msg)
