-- ===== src/Push/RoundTrip.antt =====
-- The messages of network/protocol/push/messages.go: what is written is read back.
use mathlib.Core.List.{append_assoc}
use cipher.Prelude.{
  ℕ, ◌+◌, ◌*◌, ◌%◌, ◌^◌, ◌<◌, ◌≤◌, ◌≡◌, refl, ap, List, [], ◌∷◌, ◌++◌, Bytes, length, ltb-false, ok,
  arith, All, length-append, drop, get_or, sym, ◌==◌, ◌∙◌,
}
use cipher.Chunk.Messages.{Chunk, header_bytes, header_size}
use cipher.Chunk.Payloads.{
  IsHeader, front, number, header_of-header_bytes, length-header_bytes, get_or_last,
}
use cipher.Push.Messages.{
  build_push_manifest, parse_push_manifest, build_push_chunk, parse_push_chunk,
  build_push_manifest_ack, parse_push_manifest_ack, build_push_chunk_ack, parse_push_chunk_ack,
  build_push_batch_complete_ack, parse_push_batch_complete_ack, PushMessage, max_message_size,
  envelope, write_push_message, push_message_of, read_push_sized, read_push_message, join_ids,
  split_ids,
}
use cipher.Prelude.Encoding.{le_bytes, le_value-le_bytes, length-le_bytes}
use cipher.Chunk.Framing.{read_full-append}

-- A version is a uint16 and a type a byte, and the message fits a frame.
pub record IsWritable (m : PushMessage) : Type 0 where
  pub version_bound : m.version < 2 ^ 16
  pub size_bound : 3 + length m.payload ≤ max_message_size

length-envelope : (m : PushMessage) → length (envelope m) ≡ 3 + length m.payload
length-envelope m =
    omega (
      arith,
      length-append (le_bytes 2 m.version) (m.type ∷ m.payload),
      length-le_bytes 2 m.version,
    )

push_message_of-envelope :
    (m : PushMessage) → m.version < 2 ^ 16 → push_message_of (envelope m) ≡ ok m
unfolding push_message_of le_bytes
push_message_of-envelope m h =
    ap (λ v. ok (record { version = v; type = m.type; payload = m.payload }))
      (le_value-le_bytes 2 m.version (omega (arith, h)))

-- WritePushMessage writes every message that fits a frame, and ReadPushMessage reads it back and
-- leaves what follows in the reader.
pub read_push_message-write_push_message :
    (m : PushMessage) (rest : Bytes)
    → IsWritable m
    → (w : Bytes) × (write_push_message m ≡ ok w) × (read_push_message (w ++ rest) ≡ (rest, ok m))
unfolding write_push_message read_push_message read_push_sized
read_push_message-write_push_message m rest h =
    let n = length (envelope m) in
    let e = length-envelope m in
    let b = h.size_bound in
    let q : n % 2 ^ 32 ≡ n = omega (arith, e, b) in
    let fits = ltb-false max_message_size n (omega (arith, e, b)) in
    let long = ltb-false n 3 (omega (arith, e)) in
    let size = le_value-le_bytes 4 n (omega (arith, e, b)) in
    (
      le_bytes 4 n ++ envelope m,
      rw (q, fits) refl,
      rw
          (
            append_assoc (le_bytes 4 n) (envelope m) rest,
            read_full-append 4 (le_bytes 4 n) (envelope m ++ rest) (length-le_bytes 4 n),
            size,
            fits,
            long,
            read_full-append n (envelope m) rest refl,
            push_message_of-envelope m h.version_bound,
          )
          refl,
    )

split_ids-join_ids :
    (ids : List Bytes) (rest : Bytes)
    → All (λ id. length id ≡ 32) ids
    → split_ids (length ids) (join_ids ids ++ rest) ≡ ids
unfolding split_ids join_ids
split_ids-join_ids [] rest h = refl
split_ids-join_ids (id ∷ ids) rest h =
    let (a, b) = front 32 id (join_ids ids ++ rest) h.0 in
    rw (append_assoc id (join_ids ids) rest, a, b, split_ids-join_ids ids rest h.1) refl

length-join_ids :
    (ids : List Bytes) → All (λ id. length id ≡ 32) ids → length (join_ids ids) ≡ length ids * 32
unfolding join_ids
length-join_ids [] h = refl
length-join_ids (id ∷ ids) h =
    omega (arith, length-append id (join_ids ids), h.0, length-join_ids ids h.1)

module _ (id : Bytes) (ids : List Bytes) (d : Bytes) (sized : length id ≡ 32)
    (few : length ids < 2 ^ 32) (each : All (λ i. length i ≡ 32) ids) where
  abbrev count_bytes : Bytes
  count_bytes = le_bytes 4 (length ids % 2 ^ 32)

  abbrev tail_bytes : Bytes
  tail_bytes = join_ids ids ++ d

  abbrev manifest_payload : Bytes
  manifest_payload = id ++ (count_bytes ++ tail_bytes)

  head_size : length (id ++ count_bytes) ≡ 36
  head_size =
      omega (arith, sized, length-append id count_bytes, length-le_bytes 4 (length ids % 2 ^ 32))

  ids_size : length ((id ++ count_bytes) ++ join_ids ids) ≡ 36 + length ids * 32
  ids_size =
      omega (
        arith,
        head_size,
        length-append (id ++ count_bytes) (join_ids ids),
        length-join_ids ids each,
      )

  tail_of : drop 36 manifest_payload ≡ tail_bytes
  tail_of =
      rw (sym (append_assoc id count_bytes tail_bytes))
        (front 36 (id ++ count_bytes) tail_bytes head_size).1

  data_of : drop (36 + length ids * 32) manifest_payload ≡ d
  data_of =
      rw
        (
          sym (append_assoc id count_bytes tail_bytes),
          sym (append_assoc (id ++ count_bytes) (join_ids ids) d),
        )
        (front (36 + length ids * 32) ((id ++ count_bytes) ++ join_ids ids) d ids_size).1

  payload_size : 36 + length ids * 32 ≤ length manifest_payload
  payload_size =
      rw
        (
          sym (append_assoc id count_bytes tail_bytes),
          sym (append_assoc (id ++ count_bytes) (join_ids ids) d),
        )
        (omega (arith, ids_size, length-append ((id ++ count_bytes) ++ join_ids ids) d))

  parse_push_manifest-build :
      parse_push_manifest (build_push_manifest id ids d).payload ≡ ok (id, ids, d)
  unfolding parse_push_manifest build_push_manifest
  parse_push_manifest-build =
      let (a, b) = front 32 id (count_bytes ++ tail_bytes) sized in
      let (c, _) = number 4 (length ids % 2 ^ 32) tail_bytes (omega arith) in
      let n : length ids % 2 ^ 32 ≡ length ids = omega (arith, few) in
      rw
        (
          a,
          b,
          c ∙ n,
          ltb-false (length manifest_payload) 36 (omega (arith, payload_size)),
          ltb-false (length manifest_payload) (36 + length ids * 32) payload_size,
          tail_of,
          data_of,
          split_ids-join_ids ids d each,
        )
        refl

parse_push_chunk-build :
    (id : Bytes) (c : Chunk)
    → length id ≡ 32
    → IsHeader c.header
    → parse_push_chunk (build_push_chunk id c).payload ≡ ok (id, c)
unfolding parse_push_chunk build_push_chunk
parse_push_chunk-build id c e w =
    let (a, b) = front 32 id (header_bytes c.header ++ c.data_bytes) e in
    let k = length-header_bytes c.header w in
    let (_, q) = front header_size (header_bytes c.header) c.data_bytes k in
    let n = length-append id (header_bytes c.header ++ c.data_bytes) in
    let m = length-append (header_bytes c.header) c.data_bytes in
    rw
      (
        ltb-false (length (id ++ (header_bytes c.header ++ c.data_bytes))) (32 + header_size)
            (omega (arith, n, m, k, e)),
        a,
        b,
        q,
        header_of-header_bytes c.header c.data_bytes w,
      )
      refl

pub parse_status-build :
    (id : Bytes) (status : ℕ)
    → length id ≡ 32
    → (parse_push_manifest_ack (build_push_manifest_ack id status).payload ≡ ok (id, status))
      × (parse_push_chunk_ack (build_push_chunk_ack id status).payload ≡ ok (id, status))
      × (parse_push_batch_complete_ack (build_push_batch_complete_ack id status).payload
          ≡ ok (id, status))
unfolding parse_push_manifest_ack build_push_manifest_ack parse_push_chunk_ack build_push_chunk_ack
    parse_push_batch_complete_ack build_push_batch_complete_ack
parse_status-build id n e =
    let (c, _) = front 32 id (n ∷ []) e in
    let l : length (id ++ (n ∷ [])) ≡ 33 = omega (arith, length-append id (n ∷ []), e) in
    let last = ap (λ i. get_or (id ++ (n ∷ [])) i 0) (sym e) ∙ get_or_last id n in
    let k = ap (λ x. x == 33) l in
    (rw (k, c, last) refl, rw (k, c, last) refl, rw (k, c, last) refl)

-- The parsers of the push protocol read back what the builders write: a manifest with its assigned
-- chunks, fewer than 2^32, a chunk whose header a Go ChunkHeader can hold, and the three
-- acknowledgements; for identifiers of 32 bytes.
pub push_parsers-builders :
    (id : Bytes) (ids : List Bytes) (d : Bytes) (c : Chunk) (status : ℕ)
    → length id ≡ 32
    → length ids < 2 ^ 32
    → All (λ i. length i ≡ 32) ids
    → IsHeader c.header
    → (parse_push_manifest (build_push_manifest id ids d).payload ≡ ok (id, ids, d))
      × (parse_push_chunk (build_push_chunk id c).payload ≡ ok (id, c))
      × (parse_push_manifest_ack (build_push_manifest_ack id status).payload ≡ ok (id, status))
      × (parse_push_chunk_ack (build_push_chunk_ack id status).payload ≡ ok (id, status))
      × (parse_push_batch_complete_ack (build_push_batch_complete_ack id status).payload
          ≡ ok (id, status))
push_parsers-builders id ids d c status e few each w =
    let (x, y, z) = parse_status-build id status e in
    (parse_push_manifest-build id ids d e few each, parse_push_chunk-build id c e w, x, y, z)
