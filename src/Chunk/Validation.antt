-- ===== src/Chunk/Validation.antt =====
-- network/protocol/chunk/validation.go.
use cipher.Prelude.{
  ℕ, ◌+◌, ◌-◌, ◌%◌, ◌^◌, Bool, not, ◌||◌, Option, none, some, Bytes, length, take, drop, get_or,
  ltb, leb, ◌==◌, bytes_eq, is_empty, Result, ok, err, ◌>>=◌, ◌>>◌, refuse_if, if◌then◌else◌,
}
use cipher.Chunk.Limits.{
  MessageType, current_message_version, msg_request_manifest, msg_manifest, msg_request_chunk,
  msg_chunk, msg_ack, msg_error, msg_ticket, hash_size, content_id_size, max_error_message_size,
  max_ticket_size, max_supported_chunk_count, max_supported_chunk_index,
  max_payload_size_for_message,
}
use cipher.Chunk.Messages.{
  Message, ChunkHeader, MessageError, header_size, header_of, parse_manifest,
}

pub data InvalidError : Type 0 where
  nil_message invalid_message_version invalid_message_type invalid_payload_length : InvalidError
  invalid_content_id invalid_chunk_id invalid_ciphertext invalid_ack_status invalid_error_code :
      InvalidError
  invalid_error_message content_mismatch chunk_mismatch invalid_chunk_index : InvalidError
  invalid_manifest_payload invalid_ticket_payload invalid_content_info : InvalidError
  unparsable : MessageError → InvalidError

abbrev pub Check : Type 0
Check = Result InvalidError (Unit {0})

-- ValidateTicketPayload
unfoldable pub validate_ticket_payload : Bytes → Check
validate_ticket_payload payload =
    refuse_if (is_empty payload) invalid_ticket_payload
    >> refuse_if (ltb max_ticket_size (length payload)) invalid_ticket_payload

unfoldable pub validate_request_manifest_payload : Bytes → Check
validate_request_manifest_payload payload =
    refuse_if (not (length payload == content_id_size)) invalid_content_id

unfoldable pub validate_manifest_payload : Bytes → Check
validate_manifest_payload payload =
    refuse_if (ltb (length payload) content_id_size) invalid_manifest_payload

unfoldable pub validate_request_chunk_payload : Bytes → Check
validate_request_chunk_payload payload =
    refuse_if (not (length payload == hash_size)) invalid_chunk_id

-- splitChunkPayload
unfoldable pub split_chunk_payload : Bytes → Result InvalidError (ChunkHeader × Bytes)
split_chunk_payload payload =
    if ltb (length payload) header_size
    then err invalid_payload_length
    else ok (header_of (take header_size payload), drop header_size payload)

-- ValidateChunkPayload; the size of a header is the constant 66, so the check that it is positive
-- never refuses.
unfoldable pub validate_chunk_payload : Bytes → Check
validate_chunk_payload payload =
    refuse_if (ltb (length payload) header_size) invalid_payload_length
    >> (split_chunk_payload payload >>= λ p.
        refuse_if (not (p.0.version == current_message_version)) invalid_message_version
        >> (refuse_if (ltb max_supported_chunk_index p.0.index) invalid_chunk_index
            >> (refuse_if (not (p.0.cipher_size == length p.1 % 2 ^ 32)) invalid_ciphertext
                >> refuse_if (is_empty p.1) invalid_ciphertext)))

unfoldable pub validate_ack_payload : Bytes → Check
validate_ack_payload payload =
    refuse_if (not (length payload == hash_size + 1)) invalid_payload_length
    >> refuse_if (not (get_or payload hash_size 0 == 0)) invalid_ack_status

-- isKnownErrorCode: the eight constants are 0x01 to 0x08.
abbrev pub is_known_error_code : ℕ → Bool
is_known_error_code code =
    code == 1
    || code == 2
    || code == 3
    || code == 4
    || code == 5
    || code == 6
    || code == 7
    || code == 8

unfoldable pub validate_error_payload : Bytes → Check
validate_error_payload payload =
    refuse_if (ltb (length payload) 1) invalid_payload_length
    >> (refuse_if (not (is_known_error_code (get_or payload 0 0))) invalid_error_code
        >> refuse_if (ltb max_error_message_size (length payload - 1)) invalid_error_message)

-- ValidateMessagePayload
unfoldable pub validate_message_payload : MessageType → Bytes → Check
validate_message_payload t payload =
    let limit = max_payload_size_for_message t in
    if limit == 0
    then err invalid_message_type
    else if ltb limit (length payload)
    then err invalid_payload_length
    else if t == msg_request_manifest
    then validate_request_manifest_payload payload
    else if t == msg_manifest
    then validate_manifest_payload payload
    else if t == msg_request_chunk
    then validate_request_chunk_payload payload
    else if t == msg_chunk
    then validate_chunk_payload payload
    else if t == msg_ack
    then validate_ack_payload payload
    else if t == msg_ticket
    then validate_ticket_payload payload
    else if t == msg_error
    then validate_error_payload payload
    else err invalid_message_type

-- ValidateMessage; a nil message is `none`.
unfoldable pub validate_message : Option Message → Check
validate_message none = err nil_message
validate_message (some m) =
    if not (m.version == current_message_version)
    then err invalid_message_version
    else validate_message_payload m.type m.payload

abbrev parsed_manifest : Bytes → Result InvalidError (Bytes × Bytes)
parsed_manifest payload = elim (parse_manifest payload) [ ok p ↦ ok p | err e ↦ err (unparsable e) ]

-- ValidateManifestForRequest
unfoldable pub validate_manifest_for_request : Bytes → Bytes → Check
validate_manifest_for_request requested payload =
    validate_manifest_payload payload
    >> (parsed_manifest payload >>= λ p. refuse_if (not (bytes_eq p.0 requested)) content_mismatch)

-- ValidateChunkForRequest
unfoldable pub validate_chunk_for_request : Bytes → Bytes → Check
validate_chunk_for_request requested payload =
    validate_chunk_payload payload
    >> (split_chunk_payload payload >>= λ p.
        refuse_if (not (bytes_eq p.0.id requested)) chunk_mismatch)

-- ContentInfo; its ContentID is not read.
pub record ContentInfo : Type 0 where
  pub content_id : Bytes
  pub total_chunks : ℕ

-- ValidateChunkRequestForContent
unfoldable pub validate_chunk_request_for_content : ℕ → ContentInfo → Check
validate_chunk_request_for_content chunk_index info =
    refuse_if (info.total_chunks == 0 || ltb max_supported_chunk_count info.total_chunks)
      invalid_content_info
    >> refuse_if (leb info.total_chunks chunk_index) invalid_chunk_index
