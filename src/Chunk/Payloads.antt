-- ===== src/Chunk/Payloads.antt =====
-- The payloads of network/protocol/chunk/messages.go: what a builder writes, its parser reads.
use cipher.Prelude.{
  ℕ, ◌^◌, ◌<◌, ◌≡◌, refl, sym, ap, ◌∙◌, true, [], ◌∷◌, ◌++◌, Bytes, length, take, drop, get_or,
  ltb-false, ◌==◌, ok, arith, take-append, drop-append, length-append,
}
use mathlib.Core.List.{append_assoc}
use cipher.Prelude.Encoding.{le_bytes, le_value, le_value-le_bytes, length-le_bytes}
use cipher.Chunk.Messages.{
  ChunkHeader, Chunk, header_bytes, header_of, header_size, build_chunk, parse_chunk,
  build_manifest, parse_manifest, build_ack, parse_ack, build_error, parse_error,
  build_request_manifest, parse_request_manifest, build_request_chunk, parse_request_chunk,
}

-- A header that a Go ChunkHeader can hold.
pub record IsHeader (h : ChunkHeader) : Type 0 where
  pub version_bound : h.version < 2 ^ 16
  pub id_size : length h.id ≡ 32
  pub index_bound : h.index < 2 ^ 32
  pub offset_bound : h.offset < 2 ^ 64
  pub plain_bound : h.plain_size < 2 ^ 32
  pub cipher_bound : h.cipher_size < 2 ^ 32
  pub nonce_size : length h.nonce ≡ 12

-- Reading a field of `n` bytes from the front.
pub front :
    (n : ℕ) (xs ys : Bytes) → length xs ≡ n → (take n (xs ++ ys) ≡ xs) × (drop n (xs ++ ys) ≡ ys)
front n xs ys e = (rw (sym e) (take-append xs ys), rw (sym e) (drop-append xs ys))

pub number :
    (k n : ℕ) (ys : Bytes)
    → n < 256 ^ k
    → (le_value (take k (le_bytes k n ++ ys)) ≡ n) × (drop k (le_bytes k n ++ ys) ≡ ys)
number k n ys h =
    let (a, b) = front k (le_bytes k n) ys (length-le_bytes k n) in
    (ap le_value a ∙ le_value-le_bytes k n h, b)

module _ (h : ChunkHeader) (d : Bytes) where
  abbrev t6 : Bytes
  t6 = h.nonce ++ d

  abbrev t5 : Bytes
  t5 = le_bytes 4 h.cipher_size ++ t6

  abbrev t4 : Bytes
  t4 = le_bytes 4 h.plain_size ++ t5

  abbrev t3 : Bytes
  t3 = le_bytes 8 h.offset ++ t4

  abbrev t2 : Bytes
  t2 = le_bytes 4 h.index ++ t3

  abbrev t1 : Bytes
  t1 = h.id ++ t2

  abbrev t0 : Bytes
  t0 = le_bytes 2 h.version ++ t1

  laid_out : header_bytes h ++ d ≡ t0
  unfolding header_bytes le_bytes
  laid_out =
      ap (λ z. le_bytes 2 h.version ++ z)
        (append_assoc h.id
          (le_bytes 4 h.index
            ++ (le_bytes 8 h.offset
                ++ (le_bytes 4 h.plain_size ++ (le_bytes 4 h.cipher_size ++ h.nonce))))
          d)

  header_of-laid_out : IsHeader h → header_of t0 ≡ h
  unfolding header_of
  header_of-laid_out w =
      let (a0, b0) = number 2 h.version t1 (omega (arith, w.version_bound)) in
      let (a1, b1) = front 32 h.id t2 w.id_size in
      let (a2, b2) = number 4 h.index t3 (omega (arith, w.index_bound)) in
      let (a3, b3) = number 8 h.offset t4 (omega (arith, w.offset_bound)) in
      let (a4, b4) = number 4 h.plain_size t5 (omega (arith, w.plain_bound)) in
      let (a5, b5) = number 4 h.cipher_size t6 (omega (arith, w.cipher_bound)) in
      let (a6, b6) = front 12 h.nonce d w.nonce_size in
      rw (b0, b1, b2, b3, b4, b5, a0, a1, a2, a3, a4, a5, a6) refl

pub header_of-header_bytes :
    (h : ChunkHeader) (d : Bytes) → IsHeader h → header_of (header_bytes h ++ d) ≡ h
header_of-header_bytes h d w = ap header_of (laid_out h d) ∙ header_of-laid_out h d w

pub length-header_bytes : (h : ChunkHeader) → IsHeader h → length (header_bytes h) ≡ header_size
unfolding header_bytes le_bytes
length-header_bytes h w = omega (
  arith,
  length-append h.id (
      le_bytes 4 h.index
      ++ (le_bytes 8 h.offset
          ++ (le_bytes 4 h.plain_size ++ (le_bytes 4 h.cipher_size ++ h.nonce)))),
  w.id_size,
  w.nonce_size,
)

parse_chunk-build_chunk :
    (c : Chunk) → IsHeader c.header → parse_chunk (build_chunk c).payload ≡ ok c
unfolding parse_chunk build_chunk
parse_chunk-build_chunk c w =
    let n = length-append (header_bytes c.header) c.data_bytes in
    let k = length-header_bytes c.header w in
    let (_, q) = front header_size (header_bytes c.header) c.data_bytes k in
    rw
      (
        ltb-false (length (header_bytes c.header ++ c.data_bytes)) header_size
            (omega (arith, n, k)),
        header_of-header_bytes c.header c.data_bytes w,
        q,
      )
      refl

pub get_or_last : (xs : Bytes) (n : ℕ) → get_or (xs ++ (n ∷ [])) (length xs) 0 ≡ n
get_or_last [] n = refl
get_or_last (x ∷ xs) n = get_or_last xs n

other_parsers-builders :
    (id d : Bytes) (n : ℕ)
    → length id ≡ 32
    → (parse_request_manifest (build_request_manifest id).payload ≡ ok id)
      × (parse_request_chunk (build_request_chunk id).payload ≡ ok id)
      × (parse_manifest (build_manifest id d).payload ≡ ok (id, d))
      × (parse_ack (build_ack id n).payload ≡ ok (id, n))
      × (parse_error (build_error n d).payload ≡ ok (n, d))
unfolding parse_request_manifest build_request_manifest parse_request_chunk build_request_chunk
    parse_manifest build_manifest parse_ack build_ack parse_error build_error
other_parsers-builders id d n e =
    let (a, b) = front 32 id d e in
    let (c, _) = front 32 id (n ∷ []) e in
    let k : (length id == 32) ≡ true = rw e refl in
    let m = length-append id (n ∷ []) in
    let l : length (id ++ (n ∷ [])) ≡ 33 = omega (arith, m, e) in
    let f = ltb-false (length (id ++ d)) 32 (omega (arith, length-append id d, e)) in
    (
      rw k refl,
      rw k refl,
      rw (f, a, b) refl,
      rw (ap (λ x. x == 33) l, c, ap (λ i. get_or (id ++ (n ∷ [])) i 0) (sym e) ∙ get_or_last id n)
          refl,
      refl,
    )

-- The parsers read back what their builders write: a chunk, for every header that a Go ChunkHeader
-- can hold and any data; and for identifiers of 32 bytes, a manifest with its data, an
-- acknowledgement with its status, an error with its code and text, and the two requests.
pub parsers-builders :
    (c : Chunk) (id d : Bytes) (n : ℕ)
    → IsHeader c.header
    → length id ≡ 32
    → (parse_chunk (build_chunk c).payload ≡ ok c)
      × (parse_request_manifest (build_request_manifest id).payload ≡ ok id)
      × (parse_request_chunk (build_request_chunk id).payload ≡ ok id)
      × (parse_manifest (build_manifest id d).payload ≡ ok (id, d))
      × (parse_ack (build_ack id n).payload ≡ ok (id, n))
      × (parse_error (build_error n d).payload ≡ ok (n, d))
parsers-builders c id d n w e =
    let (p, q, r, s, t) = other_parsers-builders id d n e in
    (parse_chunk-build_chunk c w, p, q, r, s, t)
