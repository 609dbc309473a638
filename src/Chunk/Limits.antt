-- ===== src/Chunk/Limits.antt =====
-- network/protocol/chunk/limits.go, with the message types of messages.go. A MessageType is the
-- uint8 that the wire holds.
use cipher.Prelude.{ℕ, ◌+◌, ◌-◌, ◌*◌, ◌^◌, ◌==◌, if◌then◌else◌}

abbrev pub MessageType : Type 0
MessageType = ℕ

abbrev pub current_message_version : ℕ
current_message_version = 1

abbrev pub msg_request_manifest : MessageType
msg_request_manifest = 1

abbrev pub msg_manifest : MessageType
msg_manifest = 2

abbrev pub msg_request_chunk : MessageType
msg_request_chunk = 3

abbrev pub msg_chunk : MessageType
msg_chunk = 4

abbrev pub msg_ack : MessageType
msg_ack = 5

abbrev pub msg_error : MessageType
msg_error = 6

abbrev pub msg_ticket : MessageType
msg_ticket = 7

abbrev pub hash_size : ℕ
hash_size = 32

abbrev pub content_id_size : ℕ
content_id_size = 32

abbrev pub max_error_message_size : ℕ
max_error_message_size = 512

abbrev pub max_chunk_request_size : ℕ
max_chunk_request_size = 512

abbrev pub max_frame_size : ℕ
max_frame_size = 2 * 1024 * 1024

abbrev pub max_message_payload_size : ℕ
max_message_payload_size = max_frame_size - 3

abbrev pub max_chunk_response_size : ℕ
max_chunk_response_size = max_message_payload_size

abbrev pub max_protocol_error_size : ℕ
max_protocol_error_size = max_error_message_size + 128

abbrev pub max_manifest_size : ℕ
max_manifest_size = max_message_payload_size

abbrev pub max_ticket_size : ℕ
max_ticket_size = 4096

abbrev pub max_supported_chunk_count : ℕ
max_supported_chunk_count = 2 ^ 32

abbrev pub max_supported_chunk_index : ℕ
max_supported_chunk_index = max_supported_chunk_count - 1

-- MaxPayloadSizeForMessage
unfoldable pub max_payload_size_for_message : MessageType → ℕ
max_payload_size_for_message t =
    if t == msg_request_manifest
    then max_chunk_request_size
    else if t == msg_manifest
    then max_manifest_size
    else if t == msg_request_chunk
    then max_chunk_request_size
    else if t == msg_chunk
    then max_chunk_response_size
    else if t == msg_ack
    then hash_size + 1
    else if t == msg_ticket
    then max_ticket_size
    else if t == msg_error
    then max_protocol_error_size
    else 0
