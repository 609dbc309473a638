-- ===== src/Push/Client.antt =====
-- network/protocol/push/client.go. What the stream does to a write is an argument, and what it brings
-- back is the bytes that are left in it.
use cipher.Prelude.{ℕ, Bool, not, List, [], Bytes, bytes_eq, ◌==◌, Result, ok, err, if◌then◌else◌}
use cipher.Chunk.Messages.{Chunk}
use cipher.Push.Messages.{
  PushMessage, PushError, status_ok, msg_push_error, msg_push_manifest_ack, msg_push_chunk_ack,
  msg_push_batch_complete_ack, parse_push_error, parse_push_manifest_ack, parse_push_chunk_ack,
  parse_push_batch_complete_ack, build_push_manifest, build_push_chunk, build_push_batch_complete,
  write_push_message, read_push_message,
}

pub data ClientError : Type 0 where
  write_failed : ClientError
  no_answer : ClientError
  remote_error : ℕ → Bytes → ClientError
  unexpected_type : ℕ → ClientError
  unreadable : ClientError
  id_mismatch : Bytes → ClientError
  rejected : ℕ → ClientError

-- The error that an answer of type MsgPushError becomes: what ParsePushError does not read is zero.
unfoldable pub remote_push_error : Result PushError (ℕ × Bytes) → ClientError
remote_push_error (err e) = remote_error 0 []
remote_push_error (ok (code, msg)) = remote_error code msg

-- The checks on the identifier and the status of an acknowledgement.
unfoldable pub check_status : Bytes → Result PushError (Bytes × ℕ) → Result ClientError (Unit {0})
check_status id (err e) = err unreadable
check_status id (ok (other, status)) =
    if not (bytes_eq other id)
    then err (id_mismatch other)
    else if not (status == status_ok)
    then err (rejected status)
    else ok tt

-- What SendManifest, SendChunk and SendBatchComplete make of an answer.
unfoldable pub check_manifest_ack : Bytes → PushMessage → Result ClientError (Unit {0})
check_manifest_ack content_id r =
    if r.type == msg_push_error
    then err (remote_push_error (parse_push_error r.payload))
    else if not (r.type == msg_push_manifest_ack)
    then err (unexpected_type r.type)
    else check_status content_id (parse_push_manifest_ack r.payload)

unfoldable pub check_chunk_ack : Bytes → PushMessage → Result ClientError (Unit {0})
check_chunk_ack chunk_id r =
    if r.type == msg_push_error
    then err (remote_push_error (parse_push_error r.payload))
    else if not (r.type == msg_push_chunk_ack)
    then err (unexpected_type r.type)
    else check_status chunk_id (parse_push_chunk_ack r.payload)

unfoldable pub check_batch_complete_ack : Bytes → PushMessage → Result ClientError (Unit {0})
check_batch_complete_ack content_id r =
    if r.type == msg_push_error
    then err (remote_push_error (parse_push_error r.payload))
    else if not (r.type == msg_push_batch_complete_ack)
    then err (unexpected_type r.type)
    else check_status content_id (parse_push_batch_complete_ack r.payload)

abbrev answer_read :
    (PushMessage → Result ClientError (Unit {0}))
    → Bytes × Result PushError PushMessage
    → Bytes × Result ClientError (Unit {0})
answer_read check (rest, err e) = (rest, err no_answer)
answer_read check (rest, ok r) = (rest, check r)

-- A request and the check of its answer, with what is left in the stream.
unfoldable pub exchange :
    Bool
    → PushMessage
    → (PushMessage → Result ClientError (Unit {0}))
    → Bytes
    → Bytes × Result ClientError (Unit {0})
exchange takes request check incoming = elim (write_push_message request) [
  | err e ↦ (incoming, err write_failed)
  | ok sent ↦
      if not takes
      then (incoming, err write_failed)
      else answer_read check (read_push_message incoming)
]

-- SendManifest
unfoldable pub send_manifest :
    Bool → Bytes → List Bytes → Bytes → Bytes → Bytes × Result ClientError (Unit {0})
send_manifest takes content_id assigned manifest_data incoming =
    exchange takes (build_push_manifest content_id assigned manifest_data)
      (check_manifest_ack content_id) incoming

-- SendChunk
unfoldable pub send_chunk : Bool → Bytes → Chunk → Bytes → Bytes × Result ClientError (Unit {0})
send_chunk takes content_id c incoming =
    exchange takes (build_push_chunk content_id c) (check_chunk_ack c.header.id) incoming

-- SendBatchComplete
unfoldable pub send_batch_complete : Bool → Bytes → Bytes → Bytes × Result ClientError (Unit {0})
send_batch_complete takes content_id incoming =
    exchange takes (build_push_batch_complete content_id) (check_batch_complete_ack content_id)
      incoming
