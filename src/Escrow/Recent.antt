-- ===== src/Escrow/Recent.antt =====
-- The challenges of a failure streak of dispatcher.go.
use cipher.Prelude.{
  ℕ, zero, suc, ◌+◌, ◌-◌, ◌≤◌, ◌≡◌, refl, sym, ap, ◌∙◌, inl, inr, ltb, Bool-cases, List, [], ◌∷◌,
  ◌++◌, Bytes, length, length-append, length-drop, drop, arith,
}
use cipher.Escrow.FailRecord.{FailRecord}
use cipher.Escrow.Dispatcher.{keep_recent}

abbrev pub challenges : List FailRecord → List Bytes
challenges [] = []
challenges (r ∷ rs) = r.challenge_id ∷ challenges rs

-- The last k of a list, all if there are fewer.
abbrev pub recent : ℕ → List Bytes → List Bytes
recent k xs = drop (length xs - k) xs

length-challenges : (rs : List FailRecord) → length (challenges rs) ≡ length rs
length-challenges [] = refl
length-challenges (r ∷ rs) = omega (arith, length-challenges rs)

challenges-drop : (n : ℕ) (rs : List FailRecord) → challenges (drop n rs) ≡ drop n (challenges rs)
challenges-drop zero rs = refl
challenges-drop (suc n) [] = refl
challenges-drop (suc n) (r ∷ rs) = challenges-drop n rs

challenges-append :
    (rs : List FailRecord) (r : FailRecord)
    → challenges (rs ++ (r ∷ [])) ≡ challenges rs ++ (r.challenge_id ∷ [])
challenges-append [] r = refl
challenges-append (x ∷ rs) r = ap (λ ys. x.challenge_id ∷ ys) (challenges-append rs r)

challenges-keep_recent :
    (k : ℕ) (rs : List FailRecord) → challenges (keep_recent k rs) ≡ recent k (challenges rs)
unfolding keep_recent
challenges-keep_recent k rs =
    let n = ap (λ n. drop (n - k) (challenges rs)) (length-challenges rs) in
    elim (Bool-cases (ltb k (length rs))) [
      | inl b ↦ rw (b, keep_recent) (challenges-drop (length rs - k) rs ∙ sym n)
      | inr b ↦
          let all : length rs - k ≡ 0 = ground (arith, b) in
          rw (b, keep_recent) (sym (n ∙ ap (λ m. drop m (challenges rs)) all))
    ]

drop_append :
    (n : ℕ) (xs : List Bytes) (y : Bytes)
    → n ≤ length xs
    → drop n xs ++ (y ∷ []) ≡ drop n (xs ++ (y ∷ []))
drop_append zero xs y h = refl
drop_append (suc n) [] y h = absurd (omega (arith, h))
drop_append (suc n) (x ∷ xs) y h = drop_append n xs y (omega (arith, h))

pub drop_nil : (n : ℕ) → ◌≡◌ {A = List Bytes} (drop n []) []
drop_nil zero = refl
drop_nil (suc n) = refl

drop-drop : (n m : ℕ) (xs : List Bytes) → drop m (drop n xs) ≡ drop (n + m) xs
drop-drop zero m xs = ap (λ k. drop k xs) (omega arith)
drop-drop (suc n) m [] = drop_nil m ∙ sym (drop_nil (suc n + m))
drop-drop (suc n) m (x ∷ xs) =
    drop-drop n m xs ∙ ap (λ k. drop k (x ∷ xs)) {x = suc (n + m)} (omega arith)

recent-recent :
    (k : ℕ) (xs : List Bytes) (y : Bytes)
    → recent k (recent k xs ++ (y ∷ [])) ≡ recent k (xs ++ (y ∷ []))
recent-recent k xs y =
    let a = length xs - k in
    let zs = xs ++ (y ∷ []) in
    let kept = drop_append a xs y (omega arith) in
    let n : a + (length (drop a zs) - k) ≡ length zs - k =
      omega (arith, length-drop a zs, length-append xs (y ∷ [])) in
    ap (recent k) kept ∙ drop-drop a (length (drop a zs) - k) zs ∙ ap (λ m. drop m zs) n

-- A record that is added to the last k.
pub challenges-add :
    (k : ℕ) (rs : List FailRecord) (r : FailRecord) (ids : List Bytes)
    → challenges rs ≡ recent k ids
    → challenges (keep_recent k (rs ++ (r ∷ []))) ≡ recent k (ids ++ (r.challenge_id ∷ []))
challenges-add k rs r ids h =
    challenges-keep_recent k (rs ++ (r ∷ []))
    ∙ ap (recent k) (challenges-append rs r)
    ∙ ap (λ xs. recent k (xs ++ (r.challenge_id ∷ []))) h
    ∙ recent-recent k ids r.challenge_id
