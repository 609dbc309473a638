-- ===== src/Push/Reading.antt =====
-- readPushMessage takes bytes out of the stream it reads from.
use cipher.Prelude.{
  ℕ, suc, Option, none, some, Bytes, length, ok, ◌≡◌, refl, ◌<◌, ◌≤◌, arith, Result, inl, inr,
  length-drop, if-cases, ltb, ◌⊎◌,
}
use cipher.Chunk.Messages.{read_full}
use cipher.Push.Messages.{
  PushMessage, PushError, read_push_message, read_push_sized, push_frame_read, push_size_read,
  max_message_size,
}

-- A read takes bytes out of the stream.
Fewer : ℕ → Bytes × Option Bytes → Type 0
Fewer k x = (x.1 ≡ none) ⊎ (length x.0 < k)

read_full-length : (n : ℕ) (r : Bytes) → length (read_full n r).0 ≤ length r
unfolding read_full
read_full-length n r =
    if-cases {A = Bytes × Option Bytes} (λ x. length x.0 ≤ length r) (ltb (length r) n) _ _
      (λ a. omega arith) (λ a. omega (arith, length-drop n r))

read_full-Fewer : (n : ℕ) (r : Bytes) → Fewer (length r) (read_full (suc n) r)
unfolding read_full Fewer
read_full-Fewer n r =
    if-cases {A = Bytes × Option Bytes} (Fewer (length r)) (ltb (length r) (suc n)) _ _
      (λ a. inl refl) (λ a. inr (ground (arith, length-drop (suc n) r, a)))

push_frame_read-rest : (x : Bytes × Option Bytes) → (push_frame_read x).0 ≡ x.0
push_frame_read-rest (rest, none) = refl
push_frame_read-rest (rest, some p) = refl

read_push_sized-length : (n : ℕ) (r : Bytes) → length (read_push_sized n r).0 ≤ length r
unfolding read_push_sized
read_push_sized-length n r =
    let P = λ (x : Bytes × Result PushError PushMessage). length x.0 ≤ length r in
    if-cases P (ltb max_message_size n) _ _ (λ a. omega arith)
      (λ a.
        if-cases P (ltb n 3) _ _ (λ b. omega arith)
          (λ b. rw (push_frame_read-rest (read_full n r)) (read_full-length n r)))

push_size_read-length :
    (k : ℕ) (x : Bytes × Option Bytes) (m : PushMessage)
    → Fewer k x
    → (push_size_read x).1 ≡ ok m
    → length (push_size_read x).0 < k
unfolding Fewer
push_size_read-length k (rest, none) m h e = absurd (cc)
push_size_read-length k (rest, some p) m (inl h) e = absurd (cc)
push_size_read-length k (rest, some p) m (inr h) e = omega (arith, read_push_sized-length _ rest, h)

pub read_push_message-length :
    (r : Bytes) (m : PushMessage)
    → (read_push_message r).1 ≡ ok m
    → length (read_push_message r).0 < length r
unfolding read_push_message
read_push_message-length r m e =
    push_size_read-length (length r) (read_full 4 r) m (read_full-Fewer 3 r) e
