-- ===== src/Demand/Histories.antt =====
-- What the request store promises after any sequence of its critical sections. A timer may fire at any
-- moment, and so may the second half of transitionRequest, with a pointer that was found long before.
use cipher.Prelude.{
  ℕ, ◌≤◌, ◌≡◌, refl, sym, ap, ◌∙◌, ◌⊎◌, inl, inr, ◌==◌, Bool, true, false, not, Option, some,
  Bool-cases, if-cases, Option-cases, Bytes, bytes_eq, is_empty, get_elem?, arith, Result, ok, err,
}
use cipher.Prelude.Int.{ℤ, is_positive}
use cipher.Demand.Requests.{
  RequestStatus, Request, RequestRecord, RequestStore, RequestError, is_pending, is_pending_record,
  is_wanted, lifetime_not_positive, create_request, add_request, get_or_create_request, with_status,
  remove_record, transition_record, get_pending_requests, calculate_demand, count_where,
}
use cipher.Demand.Sums.{pending_of, get_elem?-append_left, get_elem?-with_status}
use cipher.Demand.Pending.{
  IsSound, new_store, new_store-IsSound, find_active-counts, add_request-IsSound,
  transition-IsSound,
}

pub data Step : RequestStore → RequestStore → Type 0 where
  get_or_create :
      (now : ℤ) (file_id client_id : Bytes) (lifetime : ℤ) (s : RequestStore)
      → Step s (get_or_create_request now file_id client_id lifetime s).0
  transition :
      (i : ℕ) (status : RequestStatus) (s : RequestStore)
      → is_pending status ≡ false
      → Step s (transition_record i status s).0

pub data Run : RequestStore → RequestStore → Type 0 where
  stay : (s : RequestStore) → Run s s
  more : (s s' s'' : RequestStore) → Run s s' → Step s' s'' → Run s s''

-- What GetOrCreateRequest does.
abbrev pub Creates :
    ℤ
    → Bytes
    → Bytes
    → ℤ
    → RequestStore
    → RequestStore × Result RequestError (Option Request × Bool)
    → Type 0
Creates now f c lifetime s x =
    ((is_positive lifetime ≡ false) × (x ≡ (s, err lifetime_not_positive)))
    ⊎ ((i : ℕ) × (y : RequestRecord) × (get_elem? s.objects i ≡ some y)
        × (is_wanted f c y.request ≡ true)
        × (x ≡ (s, ok (some y.request, false))))
    ⊎ ((count_where (is_wanted f c) (get_pending_requests s) ≡ 0)
        × (x ≡ (add_request (create_request now f c) s, ok (some (create_request now f c), true))))

pub get_or_create_request-Creates :
    (now : ℤ) (f c : Bytes) (lifetime : ℤ) (s : RequestStore)
    → Creates now f c lifetime s (get_or_create_request now f c lifetime s)
unfolding get_or_create_request get_pending_requests
get_or_create_request-Creates now f c lifetime s =
    if-cases (Creates now f c lifetime s) (not (is_positive lifetime)) _ _
      (λ a. inl (ground (arith, a), refl))
      (λ a. elim (find_active-counts f c s.objects s.requests) [
        | inl (n, e) ↦ inr (inr (e, rw n refl))
        | inr (i, y, n, g, e) ↦ inr (inl (i, y, g, e, rw (n, g) refl))
      ])

get_or_create-IsSound :
    (now : ℤ) (f c : Bytes) (lifetime : ℤ) (s : RequestStore)
    → IsSound s
    → IsSound (get_or_create_request now f c lifetime s).0
unfolding get_pending_requests create_request
get_or_create-IsSound now f c lifetime s h =
    elim (get_or_create_request-Creates now f c lifetime s) [
      | inl (_, e) ↦ rw e h
      | inr (inl (i, y, g, a, e)) ↦ rw e h
      | inr (inr (n, e)) ↦ rw e (
          add_request-IsSound (create_request now f c) s h refl
            (sym (h.complete (is_wanted f c)) ∙ n))
    ]

-- What transitionRecord does.
abbrev pub Transitions : ℕ → RequestStatus → RequestStore → RequestStore × Bool → Type 0
Transitions i status s x =
    ((is_pending_record (get_elem? s.objects i) ≡ false) × (x ≡ (s, false)))
    ⊎ ((y : RequestRecord) × (get_elem? s.objects i ≡ some y)
        × (is_pending y.request.status ≡ true)
        × (x ≡ (
          record {
            objects = with_status i status s.objects;
            requests = remove_record i s.requests;
          },
          true,
        )))

pub transition_record-Transitions :
    (i : ℕ) (status : RequestStatus) (s : RequestStore)
    → Transitions i status s (transition_record i status s)
unfolding transition_record
transition_record-Transitions i status s = elim (Option-cases (get_elem? s.objects i)) [
  | inl g ↦ inl (rw g refl, rw (g, transition_record) refl)
  | inr (y, g) ↦ elim (Bool-cases (is_pending y.request.status)) [
    | inl a ↦ inr (y, g, a, rw (g, a, transition_record) refl)
    | inr a ↦ inl (rw (g, a) refl, rw (g, a, transition_record) refl)
  ]
]

Step-IsSound : {s s' : RequestStore} → Step s s' → IsSound s → IsSound s'
Step-IsSound (get_or_create now f c lifetime s) h = get_or_create-IsSound now f c lifetime s h
Step-IsSound (transition i status s b) h = elim (transition_record-Transitions i status s) [
  | inl (a, e) ↦ rw e h
  | inr (y, g, a, e) ↦ rw e (transition-IsSound i y status s h g a b)
]

pub Run-IsSound : {s s' : RequestStore} → Run s s' → IsSound s → IsSound s'
Run-IsSound (stay s) h = h
Run-IsSound (more s s' s'' r t) h = Step-IsSound t (Run-IsSound r h)

-- A store that the package can reach.
abbrev pub IsReachable : RequestStore → Type 0
IsReachable s = Run new_store s

pub IsReachable-IsSound : (s : RequestStore) → IsReachable s → IsSound s
IsReachable-IsSound s r = Run-IsSound r new_store-IsSound

-- After any sequence of the store's critical sections, late timers and transitions of pointers that
-- were found long before included: the demand for a named file is the number of its requests that
-- are pending among all that were ever made, and of no client is more than one of them.
pub calculate_demand-pending_of :
    (s : RequestStore) (file_id client_id : Bytes)
    → IsReachable s
    → is_empty file_id ≡ false
    → (calculate_demand file_id s ≡ ok (pending_of (λ r. bytes_eq r.file_id file_id) s.objects))
      × (pending_of (is_wanted file_id client_id) s.objects ≤ 1)
unfolding calculate_demand get_pending_requests
calculate_demand-pending_of s f c r e =
    let h = IsReachable-IsSound s r in
    (rw (e, h.complete (λ r. bytes_eq r.file_id f)) refl, h.single f c)

Step-final :
    {s s' : RequestStore} (i : ℕ) (x : RequestRecord)
    → Step s s'
    → get_elem? s.objects i ≡ some x
    → is_pending x.request.status ≡ false
    → get_elem? s'.objects i ≡ some x
unfolding add_request
Step-final i x (get_or_create now f c lifetime s) g a =
    elim (get_or_create_request-Creates now f c lifetime s) [
      | inl (_, e) ↦ rw e g
      | inr (inl (j, y, _, _, e)) ↦ rw e g
      | inr (inr (n, e)) ↦ rw e (get_elem?-append_left s.objects _ x i g)
    ]
Step-final i x (transition j status s b) g a = elim (transition_record-Transitions j status s) [
  | inl (_, e) ↦ rw e g
  | inr (y, k, p, e) ↦ elim (Bool-cases (j == i)) [
    | inl q ↦
        let same : j ≡ i = ground (arith, q) in
        let both : is_pending_record (some y) ≡ is_pending_record (some x) =
          ap is_pending_record (sym k ∙ ap (get_elem? s.objects) same ∙ g) in
        absurd (ground (arith, both, p, a))
    | inr q ↦ rw e (get_elem?-with_status j status s.objects i q ∙ g)
  ]
]

-- A request that is resolved, aborted or expired stays as it is: no later operation changes it, a
-- timer or a transition that still holds its pointer included.
pub Run-final :
    {s s' : RequestStore} (i : ℕ) (x : RequestRecord)
    → Run s s'
    → get_elem? s.objects i ≡ some x
    → is_pending x.request.status ≡ false
    → get_elem? s'.objects i ≡ some x
Run-final i x (stay s) g a = g
Run-final i x (more s s' s'' r t) g a = Step-final i x t (Run-final i x r g a) a
