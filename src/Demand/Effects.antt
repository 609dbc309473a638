-- ===== src/Demand/Effects.antt =====
-- The request store as a set of pairs of a file and a client.
use cipher.Prelude.{
  ap₂, bytes_eq→eq, ℕ, zero, suc, ◌≤◌, ◌≡◌, refl, sym, ap, ◌∙◌, inl, inr, ◌==◌, Bool, true, ◌&&◌,
  some, Bool-cases, List, [], ◌∷◌, Bytes, bytes_eq, bytes_eq_refl, get_elem?, arith, ok,
  if◌then◌else◌,
}
use cipher.Prelude.Int.{ℤ, is_positive}
use cipher.Demand.Requests.{
  Request, RequestRecord, RequestStore, is_wanted, count_where, create_request, add_request,
  get_or_create_request, get_pending_requests,
}
use cipher.Demand.Sums.{pending_of, counted, weight, pending_of-append}
use cipher.Demand.Pending.{IsSound, is_wanted-keys}
use cipher.Demand.Histories.{IsReachable, IsReachable-IsSound, get_or_create_request-Creates}

-- 1 if the client has a pending request for the file.
abbrev pub active : Bytes → Bytes → RequestStore → ℕ
active f c s = pending_of (is_wanted f c) s.objects

-- The same file and client.
abbrev pub same : Bytes → Bytes → Bytes → Bytes → Bool
same f c f' c' = bytes_eq f f' && bytes_eq c c'

pub counted-same :
    (f c f' c' : Bytes) (y : RequestRecord)
    → is_wanted f c y.request ≡ true
    → counted (is_wanted f' c') y ≡ (if same f c f' c' then 1 else 0)
counted-same f c f' c' y a =
    let (p, q) = is_wanted-keys f c y.request a in
    ground (arith, a, ap (λ k. bytes_eq k f') p, ap (λ k. bytes_eq k c') q)

created-wanted : (now : ℤ) (f c : Bytes) → is_wanted f c (create_request now f c) ≡ true
unfolding create_request
created-wanted now f c = ground (arith, bytes_eq_refl f, bytes_eq_refl c)

pending_of-positive :
    (p : Request → Bool) (xs : List RequestRecord) (i : ℕ) (y : RequestRecord)
    → get_elem? xs i ≡ some y
    → counted p y ≤ pending_of p xs
unfolding pending_of
pending_of-positive p [] i y g = absurd (cc)
pending_of-positive p (x ∷ xs) zero y g = let e = ap (weight p) g in omega (arith, e)
pending_of-positive p (x ∷ xs) (suc i) y g = omega (arith, pending_of-positive p xs i y g)

pub active-found :
    (f c : Bytes) (s : RequestStore) (i : ℕ) (y : RequestRecord)
    → IsSound s
    → get_elem? s.objects i ≡ some y
    → is_wanted f c y.request ≡ true
    → active f c s ≡ 1
active-found f c s i y h g a =
    let q = counted-same f c f c y a in
    ground (
      arith,
      pending_of-positive (is_wanted f c) s.objects i y g,
      h.single f c,
      q,
      bytes_eq_refl f,
      bytes_eq_refl c,
    )

pub active-absent :
    (f c : Bytes) (s : RequestStore)
    → IsSound s
    → count_where (is_wanted f c) (get_pending_requests s) ≡ 0
    → active f c s ≡ 0
unfolding get_pending_requests
active-absent f c s h n = sym (h.complete (is_wanted f c)) ∙ n

pub active-same :
    (f c f' c' : Bytes) (s : RequestStore) → same f c f' c' ≡ true → active f c s ≡ active f' c' s
active-same f c f' c' s e =
    ap₂ (λ f c. active f c s) (bytes_eq→eq f f' (ground (arith, e)))
      (bytes_eq→eq c c' (ground (arith, e)))

-- For a positive lifetime, in every reachable store: GetOrCreateRequest returns a pending request of
-- the client for the file, new exactly if there was none, and adds this pair of file and client to
-- the active ones and changes no other.
pub get_or_create_request-adds :
    (now : ℤ) (f c : Bytes) (lifetime : ℤ) (s : RequestStore)
    → IsReachable s
    → is_positive lifetime ≡ true
    → let x = get_or_create_request now f c lifetime s in
      ((r : Request) × (x.1 ≡ ok (some r, active f c s == 0)) × (is_wanted f c r ≡ true))
      × ((f' c' : Bytes) → active f' c' x.0 ≡ (if same f c f' c' then 1 else active f' c' s))
unfolding add_request
get_or_create_request-adds now f c lifetime s reached positive =
    let h = IsReachable-IsSound s reached in
    elim (get_or_create_request-Creates now f c lifetime s) [
      | inl (n, _) ↦ absurd (ground (arith, n, positive))
      | inr (inl (i, y, g, a, e)) ↦
          let one = active-found f c s i y h g a in
          rw (e, one)
            (
              (y.request, refl, a),
              λ f' c'. elim (Bool-cases (same f c f' c')) [
                | inl q ↦ rw q (sym (active-same f c f' c' s q) ∙ one)
                | inr q ↦ rw q refl
              ],
            )
      | inr (inr (n, e)) ↦
          let nobody = active-absent f c s h n in
          let r = create_request now f c in
          let y : RequestRecord = record { request = r; timer = true } in
          rw (e, nobody)
            (
              (r, refl, created-wanted now f c),
              λ f' c'.
                  let k = counted-same f c f' c' y (created-wanted now f c) in
                  let sum = pending_of-append (is_wanted f' c') s.objects y in
                  elim (Bool-cases (same f c f' c')) [
                    | inl q ↦ ground (arith, sum, k, q, active-same f c f' c' s q, nobody)
                    | inr q ↦ ground (arith, sum, k, q)
                  ],
            )
    ]
