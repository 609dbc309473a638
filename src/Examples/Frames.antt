-- ===== src/Examples/Frames.antt =====
-- The theorems on network/protocol/chunk at concrete messages.
use cipher.Prelude.{
  ℕ, ◌≡◌, ◌↔◌, refl, Option, some, none, List, [], ◌∷◌, ◌++◌, Bytes, ok, arith, length, ◌<◌, ◌≤◌,
  take,
}
use cipher.Chunk.Limits.{max_supported_chunk_count}
use cipher.Chunk.Messages.{
  Message, Chunk, ChunkHeader, write_message, read_message, build_chunk, parse_chunk, header_of,
  header_size, build_manifest, parse_manifest, build_ack, parse_ack, build_error, parse_error,
  build_request_manifest, parse_request_manifest, build_request_chunk, parse_request_chunk,
}
use cipher.Chunk.Decoder.{decode_frame}
use cipher.Chunk.Validation.{
  validate_chunk_payload, validate_chunk_for_request, ContentInfo,
  validate_chunk_request_for_content,
}
use cipher.Chunk.Framing.{read_message-write_message}
use cipher.Chunk.Decoding.{
  decode_in_two_steps, decode_frame_in_two_steps, decode_frame-write_message,
}
use cipher.Chunk.Payloads.{parsers-builders}
use cipher.Chunk.Accepts.{IsChunkPayload, validate_chunk_for_request_iff}
use cipher.Examples.StandIns.{zeros}

abbrev not_found : Message
not_found = record { version = 1; type = 6; payload = 2 ∷ 104 ∷ 105 ∷ [] }

read_message-write_message_example :
    read_message (write_message not_found ++ (9 ∷ [])) ≡ (9 ∷ [], ok not_found)
read_message-write_message_example =
    read_message-write_message not_found (9 ∷ [])
      (record { version_bound = omega arith; type_bound = omega arith; size_bound = omega arith })

decode_frame_in_two_steps_example :
    decode_frame (some (3 ∷ 0 ∷ [])) ≡ decode_in_two_steps (some (3 ∷ 0 ∷ []))
decode_frame_in_two_steps_example = decode_frame_in_two_steps (some (3 ∷ 0 ∷ []))

decode_frame-write_message_example :
    decode_frame (some (write_message not_found ++ (9 ∷ [])))
    ≡ (some (9 ∷ []), ok (record { version = 1; message_type = 6; payload = 2 ∷ 104 ∷ 105 ∷ [] }))
unfolding cipher.Chunk.Limits.max_payload_size_for_message
decode_frame-write_message_example = decode_frame-write_message not_found (9 ∷ []) (record {
  current = refl;
  type_bound = omega arith;
  nonempty = omega arith;
  limited = omega arith;
})

abbrev first_header : ChunkHeader
first_header = record {
  version = 1;
  id = 5 ∷ zeros 31;
  index = 0;
  offset = 0;
  plain_size = 2;
  cipher_size = 2;
  nonce = zeros 12;
}

abbrev first_chunk : Chunk
first_chunk = record { header = first_header; data_bytes = 8 ∷ 9 ∷ [] }

parsers-builders_example :
    (parse_chunk (build_chunk first_chunk).payload ≡ ok first_chunk)
    × (parse_request_manifest (build_request_manifest (zeros 32)).payload ≡ ok (zeros 32))
    × (parse_request_chunk (build_request_chunk (zeros 32)).payload ≡ ok (zeros 32))
    × (parse_manifest (build_manifest (zeros 32) (4 ∷ [])).payload ≡ ok (zeros 32, 4 ∷ []))
    × (parse_ack (build_ack (zeros 32) 1).payload ≡ ok (zeros 32, 1))
    × (parse_error (build_error 1 (4 ∷ [])).payload ≡ ok (1, 4 ∷ []))
parsers-builders_example =
    parsers-builders first_chunk (zeros 32) (4 ∷ []) 1
      (record {
        version_bound = omega arith;
        id_size = refl;
        index_bound = omega arith;
        offset_bound = omega arith;
        plain_bound = omega arith;
        cipher_bound = omega arith;
        nonce_size = refl;
      })
      refl

abbrev chunk_payload : Bytes
chunk_payload =
    1 ∷ 0 ∷ (5 ∷ zeros 31)
    ++ (zeros 12 ++ (2 ∷ zeros 3 ++ (2 ∷ zeros 3 ++ (zeros 12 ++ (8 ∷ 9 ∷ [])))))

validate_chunk_for_request_iff_example :
    (validate_chunk_for_request (5 ∷ zeros 31) chunk_payload ≡ ok tt) ↔ (
      IsChunkPayload chunk_payload
      × ((header_of (take header_size chunk_payload)).id ≡ 5 ∷ zeros 31))
validate_chunk_for_request_iff_example = validate_chunk_for_request_iff (5 ∷ zeros 31) chunk_payload

-- The payload is accepted.
chunk_payload_accepted : validate_chunk_for_request (5 ∷ zeros 31) chunk_payload ≡ ok tt
unfolding cipher.Chunk.Validation.validate_chunk_for_request validate_chunk_payload
    cipher.Chunk.Validation.split_chunk_payload header_of cipher.Prelude.Encoding.le_value
    cipher.Prelude.bytes_eq
chunk_payload_accepted = refl
