-- ===== src/Demand/Sums.antt =====
-- How the counts over the request store, and over all records ever made, change with an operation.
use cipher.Prelude.{
  ◌∙◌, ℕ, zero, suc, ◌+◌, ◌≤◌, ◌≡◌, refl, sym, ap, inl, inr, ◌==◌, Bool, true, false, ◌&&◌, Option,
  none, some, Bool-cases, List, [], ◌∷◌, ◌++◌, length, get_elem?, arith, if◌then◌else◌,
}
use cipher.Demand.Requests.{
  RequestStatus, Request, RequestRecord, is_pending, remove_record, with_status, append_pending,
  pending_requests, count_where,
}

-- 1 for a pending record that is counted.
abbrev pub counted : (Request → Bool) → RequestRecord → ℕ
counted p x = if is_pending x.request.status && p x.request then 1 else 0

-- The pending ones of all records that were ever made.
unfoldable pub pending_of : (Request → Bool) → List RequestRecord → ℕ
pending_of p [] = 0
pending_of p (x ∷ xs) = counted p x + pending_of p xs

abbrev pub weight : (Request → Bool) → Option RequestRecord → ℕ
weight p none = 0
weight p (some x) = counted p x

abbrev pub alive : Option RequestRecord → ℕ
alive none = 0
alive (some x) = if is_pending x.request.status then 1 else 0

unfoldable pub occurrences : ℕ → List ℕ → ℕ
occurrences i [] = 0
occurrences i (j ∷ js) = (if j == i then 1 else 0) + occurrences i js

-- Every pointer of a list leads to a pending record.
unfoldable pub Leads : List RequestRecord → List ℕ → Type 0
Leads xs [] = Unit {0}
Leads xs (i ∷ is) =
    ((x : RequestRecord) × (get_elem? xs i ≡ some x) × (is_pending x.request.status ≡ true))
    × Leads xs is

pub alive-pending :
    (o : Option RequestRecord)
    → 1 ≤ alive o
    → (x : RequestRecord) × (o ≡ some x) × (is_pending x.request.status ≡ true)
alive-pending none h = absurd (omega (arith, h))
alive-pending (some x) h = (x, refl, ground (arith, h))

pub occurrences-Leads :
    (xs : List RequestRecord) (is js : List ℕ)
    → ((i : ℕ) → occurrences i is ≤ occurrences i js)
    → ((i : ℕ) → occurrences i js ≡ alive (get_elem? xs i))
    → Leads xs is
unfolding Leads occurrences
occurrences-Leads xs [] js h e = tt
occurrences-Leads xs (i ∷ is) js h e =
    let one : 1 ≤ alive (get_elem? xs i) = ground (arith, h i, e i) in
    (alive-pending (get_elem? xs i) one, occurrences-Leads xs is js (λ j. omega (arith, h j)) e)

-- A record at the end.
pub get_elem?-append_left :
    (xs : List RequestRecord) (y x : RequestRecord) (i : ℕ)
    → get_elem? xs i ≡ some x
    → get_elem? (xs ++ (y ∷ [])) i ≡ some x
get_elem?-append_left [] y x i h = absurd (cc)
get_elem?-append_left (z ∷ xs) y x zero h = h
get_elem?-append_left (z ∷ xs) y x (suc i) h = get_elem?-append_left xs y x i h

pub alive-append :
    (xs : List RequestRecord) (y : RequestRecord) (i : ℕ)
    → is_pending y.request.status ≡ true
    → alive (get_elem? (xs ++ (y ∷ [])) i)
      ≡ (if length xs == i then 1 else 0) + alive (get_elem? xs i)
alive-append [] y zero h = ground (arith, h)
alive-append [] y (suc i) h = ground (arith, h)
alive-append (x ∷ xs) y zero h = ground (arith, h)
alive-append (x ∷ xs) y (suc i) h = ground (arith, alive-append xs y i h)

pub occurrences-append :
    (i j : ℕ) (js : List ℕ)
    → occurrences i (js ++ (j ∷ [])) ≡ (if j == i then 1 else 0) + occurrences i js
unfolding occurrences
occurrences-append i j [] = refl
occurrences-append i j (k ∷ js) = ground (arith, occurrences-append i j js)

pub pending_of-append :
    (p : Request → Bool) (xs : List RequestRecord) (y : RequestRecord)
    → pending_of p (xs ++ (y ∷ [])) ≡ counted p y + pending_of p xs
unfolding pending_of
pending_of-append p [] y = refl
pending_of-append p (x ∷ xs) y = ground (arith, pending_of-append p xs y)

pub count_where-cons :
    (p : Request → Bool) (o : Option RequestRecord) (rs : List Request)
    → count_where p (append_pending o rs) ≡ weight p o + count_where p rs
unfolding count_where
count_where-cons p none rs = omega arith
count_where-cons p (some x) rs = ground arith

pub pending_requests-cons :
    (p : Request → Bool) (xs : List RequestRecord) (i : ℕ) (is : List ℕ)
    → count_where p (pending_requests xs (i ∷ is))
      ≡ weight p (get_elem? xs i) + count_where p (pending_requests xs is)
unfolding pending_requests
pending_requests-cons p xs i is = count_where-cons p (get_elem? xs i) (pending_requests xs is)

pub get_elem?-append_last :
    (xs : List RequestRecord) (y : RequestRecord) → get_elem? (xs ++ (y ∷ [])) (length xs) ≡ some y
get_elem?-append_last [] y = refl
get_elem?-append_last (x ∷ xs) y = get_elem?-append_last xs y

pub none_pending :
    (p : Request → Bool) (xs : List RequestRecord) → count_where p (pending_requests xs []) ≡ 0
unfolding count_where pending_requests
none_pending p xs = refl

pub count_where-append :
    (p : Request → Bool) (xs : List RequestRecord) (y : RequestRecord) (is : List ℕ)
    → Leads xs is
    → count_where p (pending_requests (xs ++ (y ∷ [])) (is ++ (length xs ∷ [])))
      ≡ counted p y + count_where p (pending_requests xs is)
unfolding Leads
count_where-append p xs y [] h = omega (
  arith,
  pending_requests-cons p (xs ++ (y ∷ [])) (length xs) [],
  ap (weight p) (get_elem?-append_last xs y),
  none_pending p (xs ++ (y ∷ [])),
  none_pending p xs,
)
count_where-append p xs y (i ∷ is) ((x, e, a), h) = omega (
  arith,
  pending_requests-cons p (xs ++ (y ∷ [])) i (is ++ (length xs ∷ [])),
  pending_requests-cons p xs i is,
  ap (weight p) (get_elem?-append_left xs y x i e ∙ sym e),
  count_where-append p xs y is h,
)

-- A record that leaves pending.
pub alive-with_status :
    (i : ℕ) (status : RequestStatus) (xs : List RequestRecord) (j : ℕ)
    → is_pending status ≡ false
    → alive (get_elem? (with_status i status xs) j) ≡ (if i == j then 0 else alive (get_elem? xs j))
unfolding with_status
alive-with_status i status [] j h = ground arith
alive-with_status zero status (x ∷ xs) zero h = ground (arith, h)
alive-with_status zero status (x ∷ xs) (suc j) h = ground (arith, h)
alive-with_status (suc i) status (x ∷ xs) zero h = ground (arith, h)
alive-with_status (suc i) status (x ∷ xs) (suc j) h =
    ground (arith, alive-with_status i status xs j h)

pub get_elem?-with_status :
    (i : ℕ) (status : RequestStatus) (xs : List RequestRecord) (j : ℕ)
    → (i == j) ≡ false
    → get_elem? (with_status i status xs) j ≡ get_elem? xs j
unfolding with_status
get_elem?-with_status i status [] j h = refl
get_elem?-with_status zero status (x ∷ xs) zero h = absurd (ground (arith, h))
get_elem?-with_status zero status (x ∷ xs) (suc j) h = refl
get_elem?-with_status (suc i) status (x ∷ xs) zero h = refl
get_elem?-with_status (suc i) status (x ∷ xs) (suc j) h =
    get_elem?-with_status i status xs j (ground (arith, h))

pub pending_of-with_status :
    (p : Request → Bool) (i : ℕ) (status : RequestStatus) (xs : List RequestRecord)
    → is_pending status ≡ false
    → pending_of p (with_status i status xs) + weight p (get_elem? xs i) ≡ pending_of p xs
unfolding with_status pending_of
pending_of-with_status p i status [] h = refl
pending_of-with_status p zero status (x ∷ xs) h = ground (arith, h)
pending_of-with_status p (suc i) status (x ∷ xs) h =
    omega (arith, pending_of-with_status p i status xs h)

pub occurrences-remove_record :
    (i : ℕ) (js : List ℕ) (k : ℕ)
    → 1 ≤ occurrences i js
    → occurrences k (remove_record i js) + (if i == k then 1 else 0) ≡ occurrences k js
unfolding occurrences remove_record
occurrences-remove_record i [] k h = absurd (omega (arith, h))
occurrences-remove_record i (j ∷ js) k h = elim (Bool-cases (j == i)) [
  | inl e ↦ ground (arith, e)
  | inr e ↦ ground (arith, e, occurrences-remove_record i js k (ground (arith, h, e)))
]

-- Where the pointer does not occur, nothing changes.
pub count_where-absent :
    (p : Request → Bool) (i : ℕ) (status : RequestStatus) (xs : List RequestRecord) (js : List ℕ)
    → occurrences i js ≡ 0
    → count_where p (pending_requests (with_status i status xs) js)
      ≡ count_where p (pending_requests xs js)
unfolding occurrences
count_where-absent p i status xs [] h =
    none_pending p (with_status i status xs) ∙ sym (none_pending p xs)
count_where-absent p i status xs (j ∷ js) h = omega (
  arith,
  ap (weight p) (get_elem?-with_status i status xs j (ground (arith, h))),
  pending_requests-cons p (with_status i status xs) j js,
  pending_requests-cons p xs j js,
  count_where-absent p i status xs js (omega (arith, h)),
)

pub count_where-remove_record :
    (p : Request → Bool) (i : ℕ) (status : RequestStatus) (xs : List RequestRecord) (js : List ℕ)
    → occurrences i js ≡ 1
    → count_where p (pending_requests (with_status i status xs) (remove_record i js))
        + weight p (get_elem? xs i)
      ≡ count_where p (pending_requests xs js)
unfolding occurrences remove_record
count_where-remove_record p i status xs [] h = absurd (omega (arith, h))
count_where-remove_record p i status xs (j ∷ js) h = elim (Bool-cases (j == i)) [
  | inl e ↦
      let same : j ≡ i = ground (arith, e) in
      rw (e, remove_record)
        (omega (
          arith,
          count_where-absent p i status xs js (ground (arith, h, e)),
          pending_requests-cons p xs j js,
          ap (λ k. weight p (get_elem? xs k)) same,
        ))
  | inr e ↦
      rw (e, remove_record)
        (omega (
          arith,
          pending_requests-cons p (with_status i status xs) j (remove_record i js),
          pending_requests-cons p xs j js,
          ap (weight p) (get_elem?-with_status i status xs j (ground (arith, e))),
          count_where-remove_record p i status xs js (ground (arith, h, e)),
        ))
]
