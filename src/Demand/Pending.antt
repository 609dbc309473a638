-- ===== src/Demand/Pending.antt =====
-- The invariant of the request store: it holds every pending record once, and a client has at most one
-- pending request for a file.
use cipher.Prelude.{
  ap₂, bytes_eq→eq, ℕ, ◌+◌, ◌≤◌, ◌≡◌, refl, ap, ◌⊎◌, inl, inr, Bool, true, false, none, some,
  Bool-cases, Option-cases, List, [], ◌∷◌, Bytes, length, get_elem?, arith,
}
use cipher.Demand.Requests.{
  RequestStatus, Request, RequestRecord, RequestStore, is_pending, is_wanted, find_active,
  add_request, remove_record, with_status, pending_requests, count_where,
}
use cipher.Demand.Sums.{
  alive, alive-append, alive-with_status, count_where-append, count_where-remove_record, counted,
  none_pending, occurrences, occurrences-Leads, occurrences-append, occurrences-remove_record,
  pending_of, pending_of-append, pending_of-with_status, pending_requests-cons, weight,
}

pub record IsSound (s : RequestStore) : Type 0 where
  pub once : (i : ℕ) → occurrences i s.requests ≡ alive (get_elem? s.objects i)
  pub complete :
      (p : Request → Bool)
      → count_where p (pending_requests s.objects s.requests) ≡ pending_of p s.objects
  pub single : (file_id client_id : Bytes) → pending_of (is_wanted file_id client_id) s.objects ≤ 1

abbrev pub new_store : RequestStore
new_store = record { objects = []; requests = [] }

pub new_store-IsSound : IsSound new_store
unfolding occurrences pending_of count_where pending_requests
new_store-IsSound = record { once = λ i. refl; complete = λ p. refl; single = λ f c. omega arith }

-- The search.
pub find_active-counts :
    (file_id client_id : Bytes) (xs : List RequestRecord) (is : List ℕ)
    → ((find_active file_id client_id xs is ≡ none)
        × (count_where (is_wanted file_id client_id) (pending_requests xs is) ≡ 0))
      ⊎ ((i : ℕ) × (x : RequestRecord) × (find_active file_id client_id xs is ≡ some i)
          × (get_elem? xs i ≡ some x)
          × (is_wanted file_id client_id x.request ≡ true))
unfolding find_active
find_active-counts file_id client_id xs [] =
    inl (refl, none_pending (is_wanted file_id client_id) xs)
find_active-counts file_id client_id xs (i ∷ is) = elim (Option-cases (get_elem? xs i)) [
  | inl e ↦ elim (find_active-counts file_id client_id xs is) [
    | inl (n, c) ↦ inl (
      rw (e, find_active) n,
      omega (
        arith,
        pending_requests-cons (is_wanted file_id client_id) xs i is,
        c,
        ap (weight (is_wanted file_id client_id)) e,
      ),
    )
    | inr (j, x, f, g, a) ↦ inr (j, x, rw (e, find_active) f, g, a)
  ]
  | inr (x, e) ↦ elim (Bool-cases (is_wanted file_id client_id x.request)) [
    | inl a ↦ inr (i, x, rw (e, a, find_active) refl, e, a)
    | inr a ↦ elim (find_active-counts file_id client_id xs is) [
      | inl (n, c) ↦ inl (
        rw (e, a, find_active) n,
        ground (
          arith,
          pending_requests-cons (is_wanted file_id client_id) xs i is,
          c,
          ap (weight (is_wanted file_id client_id)) e,
          a,
        ),
      )
      | inr (j, x', f, g, a') ↦ inr (j, x', rw (e, a, find_active) f, g, a')
    ]
  ]
]

pub is_wanted-keys :
    (f c : Bytes) (r : Request) → is_wanted f c r ≡ true → (r.file_id ≡ f) × (r.client_id ≡ c)
is_wanted-keys f c r a =
    (bytes_eq→eq r.file_id f (ground (arith, a)), bytes_eq→eq r.client_id c (ground (arith, a)))

counted_le : (p : Request → Bool) (x : RequestRecord) → counted p x ≤ 1
counted_le p x = ground arith

at_most_one :
    (r : Request) (y : RequestRecord) (s : RequestStore) (f c : Bytes)
    → IsSound s
    → y.request ≡ r
    → pending_of (is_wanted r.file_id r.client_id) s.objects ≡ 0
    → counted (is_wanted f c) y + pending_of (is_wanted f c) s.objects ≤ 1
at_most_one r y s f c h same n = elim (Bool-cases (is_wanted f c y.request)) [
  | inl a ↦
      let (p, q) = is_wanted-keys f c r (rw (← same) a) in
      let moved = ap₂ (λ f c. pending_of (is_wanted f c) s.objects) p q in
      omega (arith, counted_le (is_wanted f c) y, moved, n)
  | inr a ↦ ground (arith, a, h.single f c)
]

-- A new pending request, of a client that has none for its file, keeps the invariant.
pub add_request-IsSound :
    (r : Request) (s : RequestStore)
    → IsSound s
    → is_pending r.status ≡ true
    → pending_of (is_wanted r.file_id r.client_id) s.objects ≡ 0
    → IsSound (add_request r s)
unfolding add_request
add_request-IsSound r s h e n =
    let y : RequestRecord = record { request = r; timer = true } in
    let leads = occurrences-Leads s.objects s.requests s.requests (λ i. omega arith) h.once in
    record {
      once = λ i. omega (
        arith,
        occurrences-append i (length s.objects) s.requests,
        alive-append s.objects y i e,
        h.once i,
      );
      complete = λ p. omega (
        arith,
        count_where-append p s.objects y s.requests leads,
        pending_of-append p s.objects y,
        h.complete p,
      );
      single = λ f c.
          omega
            (arith, pending_of-append (is_wanted f c) s.objects y, at_most_one r y s f c h refl n);
    }

-- A pending request that ends keeps it.
pub transition-IsSound :
    (i : ℕ) (x : RequestRecord) (status : RequestStatus) (s : RequestStore)
    → IsSound s
    → get_elem? s.objects i ≡ some x
    → is_pending x.request.status ≡ true
    → is_pending status ≡ false
    → IsSound
        (record { objects = with_status i status s.objects; requests = remove_record i s.requests })
transition-IsSound i x status s h e a b =
    let one : occurrences i s.requests ≡ 1 = ground (arith, h.once i, ap alive e, a) in
    record {
      once = λ k. ground (
        arith,
        occurrences-remove_record i s.requests k (omega (arith, one)),
        alive-with_status i status s.objects k b,
        h.once k,
        one,
      );
      complete = λ p. omega (
        arith,
        count_where-remove_record p i status s.objects s.requests one,
        pending_of-with_status p i status s.objects b,
        h.complete p,
      );
      single = λ f c.
          omega (arith, pending_of-with_status (is_wanted f c) i status s.objects b, h.single f c);
    }
