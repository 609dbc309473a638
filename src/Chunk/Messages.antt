-- ===== src/Chunk/Messages.antt =====
-- network/protocol/chunk/messages.go, but for the tickets, which are JSON. A writer takes all it is
-- given, and a reader is the bytes that are left in it. [32]byte, a ContentID or ChunkID, is a list
-- of 32 bytes.
use cipher.Prelude.{
  ℕ, ◌*◌, ◌%◌, ◌^◌, Option, none, some, [], ◌∷◌, ◌++◌, Bytes, length, take, drop, get_or, ltb, ◌==◌,
  Result, ok, err, if◌then◌else◌,
}
use cipher.Prelude.Encoding.{le_bytes, le_value}
use cipher.Chunk.Limits.{
  MessageType, current_message_version, msg_request_manifest, msg_manifest, msg_request_chunk,
  msg_chunk, msg_ack, msg_error,
}

pub record Message : Type 0 where
  pub version : ℕ
  pub type : MessageType
  pub payload : Bytes

-- core.ChunkHeader; an int64 offset is its 64-bit pattern.
pub record ChunkHeader : Type 0 where
  pub version : ℕ
  pub id : Bytes
  pub index : ℕ
  pub offset : ℕ
  pub plain_size : ℕ
  pub cipher_size : ℕ
  pub nonce : Bytes

-- core.Chunk
pub record Chunk : Type 0 where
  pub header : ChunkHeader
  pub data_bytes : Bytes

pub data MessageError : Type 0 where
  read_failed frame_too_large invalid_length : MessageError

-- io.ReadFull for `n` bytes: what is left, and the bytes. A short reader is emptied.
unfoldable pub read_full : ℕ → Bytes → Bytes × Option Bytes
read_full n r = if ltb (length r) n then ([], none) else (drop n r, some (take n r))

-- WriteMessage
unfoldable pub write_message : Message → Bytes
write_message m =
    let buf = le_bytes 2 m.version ++ (m.type ∷ m.payload) in
    le_bytes 4 (length buf % 2 ^ 32) ++ buf

-- The part of ReadMessage that reads the fields from the frame's data.
unfoldable pub message_of : Bytes → Result MessageError Message
message_of (a ∷ b ∷ t ∷ p) = ok (record { version = le_value (a ∷ b ∷ []); type = t; payload = p })
message_of _ = err read_failed

abbrev frame_read : Bytes × Option Bytes → Bytes × Result MessageError Message
frame_read (rest, none) = (rest, err read_failed)
frame_read (rest, some d) = (rest, message_of d)

-- ReadMessage behind the 4 bytes of the size.
unfoldable pub read_sized : ℕ → Bytes → Bytes × Result MessageError Message
read_sized size r =
    if ltb (2 * 1024 * 1024) size then (r, err frame_too_large) else frame_read (read_full size r)

abbrev size_read : Bytes × Option Bytes → Bytes × Result MessageError Message
size_read (rest, none) = (rest, err read_failed)
size_read (rest, some p) = read_sized (le_value p) rest

-- ReadMessage: what is left in the reader, and the message.
unfoldable pub read_message : Bytes → Bytes × Result MessageError Message
read_message r = size_read (read_full 4 r)

abbrev message : MessageType → Bytes → Message
message t p = record { version = current_message_version; type = t; payload = p }

unfoldable pub build_request_manifest : Bytes → Message
build_request_manifest id = message msg_request_manifest id

-- The two parsers that take a payload of 32 bytes and nothing else.
abbrev parse_id : Bytes → Result MessageError Bytes
parse_id payload = if length payload == 32 then ok payload else err invalid_length

unfoldable pub parse_request_manifest : Bytes → Result MessageError Bytes
parse_request_manifest payload = parse_id payload

unfoldable pub build_manifest : Bytes → Bytes → Message
build_manifest id d = message msg_manifest (id ++ d)

unfoldable pub parse_manifest : Bytes → Result MessageError (Bytes × Bytes)
parse_manifest payload =
    if ltb (length payload) 32 then err invalid_length else ok (take 32 payload, drop 32 payload)

unfoldable pub build_request_chunk : Bytes → Message
build_request_chunk id = message msg_request_chunk id

unfoldable pub parse_request_chunk : Bytes → Result MessageError Bytes
parse_request_chunk payload = parse_id payload

-- binary.Write of a ChunkHeader, field by field.
unfoldable pub header_bytes : ChunkHeader → Bytes
header_bytes h =
    le_bytes 2 h.version
    ++ (h.id
        ++ (le_bytes 4 h.index
            ++ (le_bytes 8 h.offset
                ++ (le_bytes 4 h.plain_size ++ (le_bytes 4 h.cipher_size ++ h.nonce)))))

-- binary.Size(core.ChunkHeader{})
abbrev pub header_size : ℕ
header_size = 66

-- binary.Read of a ChunkHeader, from a buffer that has its 66 bytes.
unfoldable pub header_of : Bytes → ChunkHeader
header_of b0 =
    let b1 = drop 2 b0 in
    let b2 = drop 32 b1 in
    let b3 = drop 4 b2 in
    let b4 = drop 8 b3 in
    let b5 = drop 4 b4 in
    let b6 = drop 4 b5 in
    record {
      version = le_value (take 2 b0);
      id = take 32 b1;
      index = le_value (take 4 b2);
      offset = le_value (take 8 b3);
      plain_size = le_value (take 4 b4);
      cipher_size = le_value (take 4 b5);
      nonce = take 12 b6;
    }

unfoldable pub build_chunk : Chunk → Message
build_chunk c = message msg_chunk (header_bytes c.header ++ c.data_bytes)

unfoldable pub parse_chunk : Bytes → Result MessageError Chunk
parse_chunk payload =
    if ltb (length payload) header_size
    then err read_failed
    else ok (record { header = header_of payload; data_bytes = drop header_size payload })

unfoldable pub build_ack : Bytes → ℕ → Message
build_ack id status = message msg_ack (id ++ (status ∷ []))

unfoldable pub parse_ack : Bytes → Result MessageError (Bytes × ℕ)
parse_ack payload =
    if length payload == 33 then ok (take 32 payload, get_or payload 32 0) else err invalid_length

unfoldable pub build_error : ℕ → Bytes → Message
build_error code msg = message msg_error (code ∷ msg)

unfoldable pub parse_error : Bytes → Result MessageError (ℕ × Bytes)
parse_error [] = err invalid_length
parse_error (code ∷ msg) = ok (code, msg)
