-- ===== src/Chunk/Framing.antt =====
-- What messages.go and decoder.go of network/protocol/chunk do with the bytes of a frame.
use cipher.Prelude.{
  ℕ, ◌+◌, ◌*◌, ◌%◌, ◌^◌, ◌<◌, ◌≤◌, ◌≡◌, refl, sym, ap, ◌∙◌, false, some, ◌∷◌, ◌++◌, Bytes, length,
  ltb, ok, arith, Bool-cases, take-append, drop-append, length-append, inl, inr,
}
use cipher.Prelude.Encoding.{le_bytes, le_value, le_value-le_bytes, length-le_bytes}
use mathlib.Core.List.{append_assoc}
use cipher.Chunk.Limits.{max_frame_size, max_message_payload_size}
use cipher.Chunk.Messages.{Message, read_full, write_message, message_of, read_sized, read_message}

pub read_full-append :
    (n : ℕ) (xs ys : Bytes) → length xs ≡ n → read_full n (xs ++ ys) ≡ (ys, some xs)
unfolding read_full
read_full-append n xs ys h = elim (Bool-cases (ltb (length (xs ++ ys)) n)) [
  | inl a ↦ let e = length-append xs ys in absurd (ground arith)
  | inr a ↦ rw (a, sym h, take-append xs ys, drop-append xs ys)
]

-- A message that fits the wire: its version is a uint16, its type a uint8, and its frame is at
-- most as long as a frame may be.
pub record IsWritable (m : Message) : Type 0 where
  pub version_bound : m.version < 2 ^ 16
  pub type_bound : m.type < 2 ^ 8
  pub size_bound : length m.payload ≤ max_message_payload_size

abbrev pub frame_bytes : Message → Bytes
frame_bytes m = le_bytes 2 m.version ++ (m.type ∷ m.payload)

length-frame_bytes : (m : Message) → length (frame_bytes m) ≡ 3 + length m.payload
length-frame_bytes m =
    omega (
      arith,
      length-append (le_bytes 2 m.version) (m.type ∷ m.payload),
      length-le_bytes 2 m.version,
    )

pub written :
    (m : Message) (rest : Bytes)
    → IsWritable m
    → write_message m ++ rest ≡ le_bytes 4 (3 + length m.payload) ++ (frame_bytes m ++ rest)
unfolding write_message
written m rest h =
    let e = length-frame_bytes m in
    let b = h.size_bound in
    let q : length (frame_bytes m) % 2 ^ 32 ≡ 3 + length m.payload = omega (arith, e, b) in
    rw q (append_assoc (le_bytes 4 (3 + length m.payload)) (frame_bytes m) rest)

message_of-frame_bytes : (m : Message) → IsWritable m → message_of (frame_bytes m) ≡ ok m
unfolding message_of le_bytes
message_of-frame_bytes m h =
    let q : le_value (le_bytes 2 m.version) ≡ m.version =
      le_value-le_bytes 2 m.version (omega (arith, h.version_bound)) in
    ap (λ v. ok (record { version = v; type = m.type; payload = m.payload })) q

size_read :
    (m : Message)
    → IsWritable m
    → le_value (le_bytes 4 (3 + length m.payload)) ≡ 3 + length m.payload
size_read m h = le_value-le_bytes 4 (3 + length m.payload) (omega (arith, h.size_bound))

read_sized-append :
    (d rest : Bytes) (n : ℕ)
    → length d ≡ n
    → n ≤ max_frame_size
    → read_sized n (d ++ rest) ≡ (rest, message_of d)
unfolding read_sized
read_sized-append d rest n e h =
    let small : ltb (2 * 1024 * 1024) n ≡ false = ground arith in
    rw (small, read_full-append n d rest e) refl

prefix_read : (p r : Bytes) → length p ≡ 4 → read_message (p ++ r) ≡ read_sized (le_value p) r
unfolding read_message
prefix_read p r e = rw (read_full-append 4 p r e) refl

-- What WriteMessage writes, ReadMessage reads back, and it leaves what follows in the reader: for
-- every message that fits the wire.
pub read_message-write_message :
    (m : Message) (rest : Bytes)
    → IsWritable m
    → read_message (write_message m ++ rest) ≡ (rest, ok m)
read_message-write_message m rest h =
    let b = h.size_bound in
    ap read_message (written m rest h)
    ∙ prefix_read (le_bytes 4 (3 + length m.payload)) (frame_bytes m ++ rest)
        (length-le_bytes 4 (3 + length m.payload))
    ∙ ap (λ n. read_sized n (frame_bytes m ++ rest)) (size_read m h)
    ∙ read_sized-append (frame_bytes m) rest (3 + length m.payload) (length-frame_bytes m)
        (omega (arith, b))
    ∙ ap (λ x. (rest, x)) (message_of-frame_bytes m h)
