-- ===== src/Chunk/Accepts.antt =====
-- What validation.go of network/protocol/chunk accepts.
use cipher.Prelude.{
  ℕ, zero, suc, ◌-◌, ◌%◌, ◌^◌, ◌<◌, ◌≤◌, ◌≡◌, ◌↔◌, refl, sym, ap, ◌∙◌, Bool, true, false, not, ◌||◌,
  [], ◌∷◌, Bytes, length, ltb→lt, ltb-false, take, drop, ltb, leb, ◌==◌, ok, err, refuse_if, ◌>>◌,
  ◌>>=◌, arith, Bool-cases, length-drop, inl, inr, bytes_eq, bytes_eq→eq, bytes_eq_refl, is_empty,
}
use cipher.Chunk.Limits.{
  max_supported_chunk_count, max_supported_chunk_index, current_message_version,
}
use cipher.Chunk.Messages.{ChunkHeader, header_of, header_size}
use cipher.Chunk.Validation.{
  InvalidError, Check, invalid_message_version, invalid_chunk_index, invalid_ciphertext,
  chunk_mismatch, split_chunk_payload, validate_chunk_payload, validate_chunk_for_request,
  ContentInfo, validate_chunk_request_for_content,
}

-- ValidateChunkRequestForContent accepts an index exactly if the content has between 1 and 2^32
-- chunks and the index is below their number.
validate_chunk_request_for_content_iff :
    (i : ℕ) (info : ContentInfo)
    → (validate_chunk_request_for_content i info ≡ ok tt)
      ↔ ((info.total_chunks ≤ max_supported_chunk_count) × (i < info.total_chunks))
unfolding validate_chunk_request_for_content
validate_chunk_request_for_content_iff i info =
    elim (Bool-cases (info.total_chunks == 0 || ltb max_supported_chunk_count info.total_chunks)) [
      | inl a ↦ rw a (λ h. cc, λ h. absurd (ground arith))
      | inr a ↦ rw a (elim (Bool-cases (leb info.total_chunks i)) [
        | inl b ↦ rw b (λ h. cc, λ h. absurd (ground arith))
        | inr b ↦ rw b (λ h. ground arith, λ h. refl)
      ])
    ]

-- What ValidateChunkPayload asks of a payload: a header of the current version, and behind it
-- exactly as many bytes as the header's cipher size says, at least one.
pub record IsChunkPayload (payload : Bytes) : Type 0 where
  pub long : header_size < length payload
  pub current : (header_of (take header_size payload)).version ≡ current_message_version
  pub supported : (header_of (take header_size payload)).index ≤ max_supported_chunk_index
  pub sized :
      (header_of (take header_size payload)).cipher_size ≡ (length payload - header_size) % 2 ^ 32

is_empty-drop : (n : ℕ) (p : Bytes) → (is_empty (drop n p) ≡ false) ↔ (n < length p)
is_empty-drop zero [] = (λ h. cc, λ h. absurd (omega (arith, h)))
is_empty-drop zero (x ∷ p) = (λ h. omega arith, λ h. refl)
is_empty-drop (suc n) [] = (λ h. cc, λ h. absurd (omega (arith, h)))
is_empty-drop (suc n) (x ∷ p) =
    let t = is_empty-drop n p in (λ h. omega (arith, t.0 h), λ h. t.1 (omega (arith, h)))

-- The tests that ValidateChunkPayload makes behind the length of the payload.
abbrev tests : ChunkHeader → Bytes → Check
tests h d =
    refuse_if (not (h.version == current_message_version)) invalid_message_version
    >> (refuse_if (ltb max_supported_chunk_index h.index) invalid_chunk_index
        >> (refuse_if (not (h.cipher_size == length d % 2 ^ 32)) invalid_ciphertext
            >> refuse_if (is_empty d) invalid_ciphertext))

tests_iff :
    (h : ChunkHeader) (d : Bytes)
    → (tests h d ≡ ok tt) ↔ (
        (h.version ≡ current_message_version)
        × (h.index ≤ max_supported_chunk_index)
        × (h.cipher_size ≡ length d % 2 ^ 32)
        × (is_empty d ≡ false))
tests_iff h d = elim (Bool-cases (not (h.version == current_message_version))) [
  | inl a ↦ rw a (λ z. cc, λ x. let y = x.0 in absurd (ground arith))
  | inr a ↦ rw a (elim (Bool-cases (ltb max_supported_chunk_index h.index)) [
    | inl b ↦ rw b (λ z. cc, λ x. let y = x.1 in absurd (ground arith))
    | inr b ↦ rw b (elim (Bool-cases (not (h.cipher_size == length d % 2 ^ 32))) [
      | inl c ↦ rw c (λ z. cc, λ x. let y = x.2 in absurd (ground arith))
      | inr c ↦ rw c (elim (Bool-cases (is_empty d)) [
        | inl e ↦ rw e (λ z. cc, λ x. let y = x.3 in absurd (ground arith))
        | inr e ↦ rw e (λ z. (ground arith, ground arith, ground arith, refl), λ x. refl)
      ])
    ])
  ])
]

-- These payloads are those that ValidateChunkPayload accepts.
validate_chunk_payload_iff :
    (payload : Bytes) → (validate_chunk_payload payload ≡ ok tt) ↔ IsChunkPayload payload
unfolding validate_chunk_payload split_chunk_payload
validate_chunk_payload_iff p =
    let q = is_empty-drop header_size p in
    let n = length-drop header_size p in
    let t = tests_iff (header_of (take header_size p)) (drop header_size p) in
    let e = ap (λ k. k % 2 ^ 32) n in
    elim (Bool-cases (ltb (length p) header_size)) [
      | inl a ↦ rw a (λ h. cc, λ h. absurd (omega (arith, ltb→lt (length p) header_size a, h.long)))
      | inr a ↦ rw a (
        λ h.
            let (x, y, z, w) = t.0 h in
            record { long = q.0 w; current = x; supported = y; sized = z ∙ e },
        λ h. t.1 (h.current, h.supported, h.sized ∙ sym e, q.1 h.long),
      )
    ]

split-long :
    (p : Bytes)
    → IsChunkPayload p
    → split_chunk_payload p ≡ ok (header_of (take header_size p), drop header_size p)
unfolding split_chunk_payload
split-long p c = rw (ltb-false (length p) header_size (omega (arith, c.long))) refl

then_ok : (c k : Check) → (c >> k ≡ ok tt) ↔ ((c ≡ ok tt) × (k ≡ ok tt))
then_ok (ok _) k = (λ h. (refl, h), λ h. h.1)
then_ok (err e) k = (λ h. cc, λ h. let x = h.0 in cc)

refuse_if_ok : (b : Bool) (e : InvalidError) → (refuse_if (not b) e ≡ ok tt) ↔ (b ≡ true)
refuse_if_ok true e = (λ h. refl, λ h. refl)
refuse_if_ok false e = (λ h. cc, λ h. cc)

-- ValidateChunkForRequest accepts exactly the valid payloads whose header has the requested id.
pub validate_chunk_for_request_iff :
    (requested payload : Bytes)
    → (validate_chunk_for_request requested payload ≡ ok tt)
      ↔ (IsChunkPayload payload × ((header_of (take header_size payload)).id ≡ requested))
unfolding validate_chunk_for_request
validate_chunk_for_request_iff r p =
    let v = validate_chunk_payload_iff p in
    let id = (header_of (take header_size p)).id in
    let k = split_chunk_payload p >>= λ x. refuse_if (not (bytes_eq x.0.id r)) chunk_mismatch in
    let t = then_ok (validate_chunk_payload p) k in
    let b = refuse_if_ok (bytes_eq id r) chunk_mismatch in
    let step = λ (c : IsChunkPayload p).
      ap {B = Check} (λ s. s >>= λ x. refuse_if (not (bytes_eq x.0.id r)) chunk_mismatch)
        (split-long p c) in
    (
      λ h. let c = v.0 ((t.0 h).0) in (c, bytes_eq→eq id r (b.0 (sym (step c) ∙ (t.0 h).1))),
      λ h. t.1 (v.1 h.0, step h.0 ∙ b.1 (rw h.1 (bytes_eq_refl r))),
    )
