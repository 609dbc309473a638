-- ===== src/Chunk/Decoding.antt =====
-- decoder.go of network/protocol/chunk: its two ways to read a frame, and what it accepts.
use cipher.Prelude.{
  ℕ, ◌+◌, ◌-◌, ◌^◌, ◌<◌, ◌≤◌, ◌≡◌, refl, sym, ap, ◌∙◌, false, not, Option, none, some, [], ◌∷◌,
  ◌++◌, Bytes, length, take, drop, get_or, ltb, ◌==◌, Result, ok, err, arith, Bool-cases, inl, inr,
}
use cipher.Prelude.Encoding.{le_bytes, le_value, le_value-le_bytes}
use cipher.Chunk.Limits.{
  MessageType, max_payload_size_for_message, max_message_payload_size, current_message_version,
}
use cipher.Chunk.Messages.{Message, read_full, write_message}
use cipher.Chunk.Decoder.{
  FrameError, Frame, Reader, decode_declared, decode_frame, FrameHeader, header_fields,
  decode_frame_header, read_frame_payload, declared_read, header_read, payload_read,
}
use cipher.Chunk.Framing.{IsWritable, read_full-append, written}

abbrev frame_with :
    FrameHeader → Reader × Result FrameError Bytes → Reader × Result FrameError Frame
frame_with h (r, err e) = (r, err e)
frame_with h (r, ok p) =
    (r, ok (record { version = h.version; message_type = h.message_type; payload = p }))

abbrev then_payload : Reader × FrameHeader → Reader × Result FrameError Frame
then_payload (r, h) = elim h.error [
  | some e ↦ (r, err e)
  | none ↦ frame_with h (read_frame_payload r h.message_type h.payload_size)
]

-- A caller that reads the header first, and the payload of the size that it declares.
abbrev pub decode_in_two_steps : Reader → Reader × Result FrameError Frame
decode_in_two_steps r = then_payload (decode_frame_header r)

frame_with-payload_read :
    (h : FrameHeader) (x : Bytes × Option Bytes)
    → payload_read
        (λ p. record { version = h.version; message_type = h.message_type; payload = p })
        x
      ≡ frame_with h (payload_read (λ p. p) x)
frame_with-payload_read h (rest, none) = refl
frame_with-payload_read h (rest, some p) = refl

declared_in_two_steps :
    (h rest : Bytes) → decode_declared h rest ≡ then_payload (some rest, header_fields h)
unfolding decode_declared header_fields read_frame_payload
declared_in_two_steps h rest = elim (Bool-cases (ltb (le_value (take 4 h)) 3)) [
  | inl a ↦ rw a refl
  | inr a ↦ elim (Bool-cases (not (le_value (take 2 (drop 4 h)) == current_message_version))) [
    | inl b ↦ rw (a, b) refl
    | inr b ↦ elim (Bool-cases (max_payload_size_for_message (get_or h 6 0) == 0)) [
      | inl c ↦ rw (a, b, c) refl
      | inr c ↦ elim (Bool-cases (le_value (take 4 h) - 3 == 0)) [
        | inl d ↦ rw (a, b, c, d) refl
        | inr d ↦
            elim (Bool-cases
              (ltb (max_payload_size_for_message (get_or h 6 0)) (le_value (take 4 h) - 3))) [
                | inl e ↦ rw (a, b, c, d, e) refl
                | inr e ↦
                    rw (a, b, c, d, e, c, d, e)
                      (frame_with-payload_read
                        (record {
                          version = le_value (take 2 (drop 4 h));
                          message_type = get_or h 6 0;
                          payload_size = le_value (take 4 h) - 3;
                          error = none;
                        })
                        (read_full (le_value (take 4 h) - 3) rest))
              ]
      ]
    ]
  ]
]

read_in_two_steps : (x : Bytes × Option Bytes) → declared_read x ≡ then_payload (header_read x)
read_in_two_steps (rest, none) = refl
read_in_two_steps (rest, some h) = declared_in_two_steps h rest

-- DecodeFrame is DecodeFrameHeader followed by ReadFramePayload: on every reader, nil and short
-- ones included, it gives the same frame or error and leaves the same bytes.
pub decode_frame_in_two_steps : (r : Reader) → decode_frame r ≡ decode_in_two_steps r
unfolding decode_frame decode_frame_header
decode_frame_in_two_steps none = refl
decode_frame_in_two_steps (some r) = read_in_two_steps (read_full 7 r)

limit_bound : (t : MessageType) → max_payload_size_for_message t ≤ max_message_payload_size
unfolding max_payload_size_for_message
limit_bound t = ground arith

declared_frame :
    (h p rest : Bytes) (t : MessageType)
    → le_value (take 4 h) ≡ 3 + length p
    → le_value (take 2 (drop 4 h)) ≡ current_message_version
    → get_or h 6 0 ≡ t
    → 0 < length p
    → length p ≤ max_payload_size_for_message t
    → decode_declared h (p ++ rest) ≡ (
      some rest,
      ok (record { version = current_message_version; message_type = t; payload = p }),
    )
unfolding decode_declared
declared_frame h p rest t size version type some_bytes few =
    let a : ltb (3 + length p) 3 ≡ false = ground arith in
    let n : 3 + length p - 3 ≡ length p = omega arith in
    let b : (max_payload_size_for_message t == 0) ≡ false = ground arith in
    let c : (length p == 0) ≡ false = ground arith in
    let d : ltb (max_payload_size_for_message t) (length p) ≡ false = ground arith in
    rw (size, a, version, type, b, n, c, d, read_full-append (length p) p rest refl) refl

-- What a Message must be for DecodeFrame to accept it: of the current version, with a known type
-- and a payload that is not empty and within the limit of its type.
pub record IsDecodable (m : Message) : Type 0 where
  pub current : m.version ≡ current_message_version
  pub type_bound : m.type < 2 ^ 8
  pub nonempty : 0 < length m.payload
  pub limited : length m.payload ≤ max_payload_size_for_message m.type

abbrev head_bytes : ℕ → ℕ → MessageType → Bytes
head_bytes n v t = le_bytes 4 n ++ (le_bytes 2 v ++ (t ∷ []))

length-head_bytes : (n v : ℕ) (t : MessageType) → length (head_bytes n v t) ≡ 7
unfolding le_bytes
length-head_bytes n v t = refl

head_fields :
    (n v : ℕ) (t : MessageType)
    → n < 2 ^ 32
    → v < 2 ^ 16
    → (le_value (take 4 (head_bytes n v t)) ≡ n)
      × (le_value (take 2 (drop 4 (head_bytes n v t))) ≡ v)
      × (get_or (head_bytes n v t) 6 0 ≡ t)
unfolding le_bytes
head_fields n v t h k =
    (le_value-le_bytes 4 n (omega (arith, h)), le_value-le_bytes 2 v (omega (arith, k)), refl)

split_written :
    (m : Message) (rest : Bytes)
    → IsWritable m
    → write_message m ++ rest
      ≡ head_bytes (3 + length m.payload) m.version m.type ++ (m.payload ++ rest)
unfolding le_bytes
split_written m rest h = written m rest h

-- DecodeFrame reads back what WriteMessage writes, and leaves what follows, for every message
-- that it can accept.
pub decode_frame-write_message :
    (m : Message) (rest : Bytes)
    → IsDecodable m
    → decode_frame (some (write_message m ++ rest))
      ≡ (some rest, ok (record { version = m.version; message_type = m.type; payload = m.payload }))
unfolding decode_frame
decode_frame-write_message m rest h =
    let l = limit_bound m.type in
    let q = h.limited in
    let small : length m.payload ≤ max_message_payload_size = omega (arith, l, q) in
    let c = h.current in
    let w : IsWritable m = record {
      version_bound = omega (arith, c);
      type_bound = h.type_bound;
      size_bound = small;
    } in
    let (x, y, z) =
      head_fields (3 + length m.payload) m.version m.type (omega (arith, small))
        (omega (arith, c)) in
    let hd = head_bytes (3 + length m.payload) m.version m.type in
    ap (λ r. decode_frame (some r)) (split_written m rest w)
    ∙ ap declared_read
        (read_full-append 7 hd (m.payload ++ rest) (length-head_bytes _ m.version m.type))
    ∙ declared_frame hd m.payload rest m.type x (y ∙ c) z h.nonempty h.limited
    ∙ ap (λ v. (some rest, ok (record { version = v; message_type = m.type; payload = m.payload })))
        (sym c)
