-- ===== src/Demand/Races.antt =====
-- ResolveRequest and AbortRequest, which search for the request and end it in two critical sections.
use cipher.Prelude.{
  zero, suc, List, [], ◌∷◌, bytes_eq, ℕ, ◌≡◌, refl, sym, ◌∙◌, ap, ◌⊎◌, inl, inr, ◌==◌, Bool, true,
  false, some, Bool-cases, Bytes, get_elem?, arith, if◌then◌else◌,
}
use cipher.Demand.Requests.{
  RequestStatus, RequestRecord, RequestStore, resolved, aborted, is_pending, is_wanted,
  is_pending_record, with_status, add_request, transition_request, resolve_request, abort_request,
  get_pending_requests,
}
use cipher.Demand.Sums.{
  weight, get_elem?-append_left, get_elem?-with_status, pending_of-with_status,
}
use cipher.Demand.Pending.{find_active-counts}
use cipher.Demand.Histories.{
  Step, Run, get_or_create, transition, stay, more, IsReachable, IsReachable-IsSound, Run-IsSound,
  get_or_create_request-Creates, transition_record-Transitions,
}
use cipher.Demand.Effects.{active, same, counted-same, active-found, active-absent, active-same}

record_injective : (x y : RequestRecord) → some x ≡ some y → x ≡ y
record_injective x y h = cc

-- The record at the pointer gets the status.
get_elem?-with_status_self :
    (i : ℕ) (status : RequestStatus) (xs : List RequestRecord) (x : RequestRecord)
    → get_elem? xs i ≡ some x
    → get_elem? (with_status i status xs) i
      ≡ some (record { request = record x.request { status = status }; timer = false })
unfolding with_status
get_elem?-with_status_self i status [] x h = absurd (cc)
get_elem?-with_status_self zero status (y ∷ xs) x h =
    ap
      (λ (z : RequestRecord).
        some (record { request = record z.request { status = status }; timer = false }))
      (record_injective y x h)
get_elem?-with_status_self (suc i) status (y ∷ xs) x h = get_elem?-with_status_self i status xs x h

-- The record at the pointer is of the same file and client.
Same : ℕ → RequestRecord → RequestStore → Type 0
Same i x s =
    (y : RequestRecord) × (get_elem? s.objects i ≡ some y)
    × (y.request.file_id ≡ x.request.file_id)
    × (y.request.client_id ≡ x.request.client_id)

Step-Same : {s s' : RequestStore} (i : ℕ) (x : RequestRecord) → Step s s' → Same i x s → Same i x s'
unfolding Same add_request
Step-Same i x (get_or_create now f c lifetime s) (y, g, p, q) =
    elim (get_or_create_request-Creates now f c lifetime s) [
      | inl (_, e) ↦ rw e (y, g, p, q)
      | inr (inl (_, _, _, _, e)) ↦ rw e (y, g, p, q)
      | inr (inr (n, e)) ↦ rw e (y, get_elem?-append_left s.objects _ y i g, p, q)
    ]
Step-Same i x (transition j status s b) (y, g, p, q) =
    elim (transition_record-Transitions j status s) [
      | inl (_, e) ↦ rw e (y, g, p, q)
      | inr (z, k, a, e) ↦ elim (Bool-cases (j == i)) [
        | inl m ↦
            let at : j ≡ i = ground (arith, m) in
            let z : RequestRecord = record {
              request = record y.request { status = status };
              timer = false;
            } in
            let g' = ap (get_elem? s.objects) at ∙ g in
            let k =
              ap (get_elem? (with_status j status s.objects)) (sym at)
              ∙ get_elem?-with_status_self j status s.objects y g' in
            rw e (z, k, p, q)
        | inr m ↦ rw e (y, get_elem?-with_status j status s.objects i m ∙ g, p, q)
      ]
    ]

Run-Same : {s s' : RequestStore} (i : ℕ) (x : RequestRecord) → Run s s' → Same i x s → Same i x s'
Run-Same i x (stay s) h = h
Run-Same i x (more s s' s'' r t) h = Step-Same i x t (Run-Same i x r h)

-- What the operation does that searches in `s` and finds `s'` when it takes the mutex again: the
-- client has no pending request for the file in `s`, and nothing changes; or the one that it
-- found has ended in the meantime, and nothing changes; or that one gets the status, and the pair
-- of the file and the client is no longer active, and all others are as they were.
abbrev pub Ends :
    RequestStatus → Bytes → Bytes → RequestStore → RequestStore → RequestStore × Bool → Type 0
Ends status f c s s' x =
    ((active f c s ≡ 0) × (x ≡ (s, false)))
    ⊎ ((i : ℕ) × (y y' : RequestRecord) × (get_elem? s.objects i ≡ some y)
        × (is_wanted f c y.request ≡ true)
        × (get_elem? s'.objects i ≡ some y')
        × (((is_pending y'.request.status ≡ false) × (x ≡ (s', false)))
            ⊎ ((is_pending y'.request.status ≡ true)
                × (x.1 ≡ true)
                × (get_elem? x.0.objects i
                    ≡ some
                        (record { request = record y'.request { status = status }; timer = false }))
                × ((f' c' : Bytes)
                    → active f' c' x.0 ≡ (if same f c f' c' then 0 else active f' c' s')))))

still_wanted :
    (f c : Bytes) (x y : RequestRecord)
    → is_wanted f c x.request ≡ true
    → y.request.file_id ≡ x.request.file_id
    → y.request.client_id ≡ x.request.client_id
    → is_pending y.request.status ≡ true
    → is_wanted f c y.request ≡ true
still_wanted f c x y a p q b =
    ground (arith, a, ap (λ k. bytes_eq k f) p, ap (λ k. bytes_eq k c) q, b)

transition_request-Ends :
    (f c : Bytes) (status : RequestStatus) (gap : RequestStore → RequestStore) (s : RequestStore)
    → IsReachable s
    → Run s (gap s)
    → is_pending status ≡ false
    → Ends status f c s (gap s) (transition_request f c status gap s)
unfolding transition_request get_pending_requests Same
transition_request-Ends f c status gap s reached others b =
    let h = IsReachable-IsSound s reached in
    let h' = Run-IsSound others h in
    let s' = gap s in
    elim (find_active-counts f c s.objects s.requests) [
      | inl (n, e) ↦ inl (active-absent f c s h e, rw (n, transition_request))
      | inr (i, y, n, g, a) ↦
          let (y', g', p, q) = Run-Same i y others (y, g, refl, refl) in
          inr (
            i,
            y,
            y',
            g,
            a,
            g',
            elim (transition_record-Transitions i status s') [
              | inl (ended, e) ↦
                  let its_status = ap is_pending_record g' in
                  inl (sym its_status ∙ ended, rw (n, transition_request) e)
              | inr (z, k, v, e) ↦
                  let pending_still : is_pending y'.request.status ≡ true =
                    ground (arith, v, ap is_pending_record k, ap is_pending_record g') in
                  let w = still_wanted f c y y' a p q pending_still in
                  let one = active-found f c s' i y' h' g' w in
                  rw (n, transition_request, e)
                    (inr (
                      pending_still,
                      refl,
                      get_elem?-with_status_self i status s'.objects y' g',
                      λ f' c'.
                          let k = counted-same f c f' c' y' w in
                          let sum =
                            pending_of-with_status (is_wanted f' c') i status s'.objects b in
                          let v = ap (weight (is_wanted f' c')) g' in
                          elim (Bool-cases (same f c f' c')) [
                            | inl q ↦ ground (arith, sum, v, k, q, active-same f c f' c' s' q, one)
                            | inr q ↦ ground (arith, sum, v, k, q)
                          ],
                    ))
            ],
          )
    ]

-- For ResolveRequest and AbortRequest, of which each searches for the client's pending request in a
-- reachable store and takes the mutex again after others have done any sequence of operations: the
-- client had no pending request for the file, and the operation fails and does nothing; or the
-- request that it found has ended in between, and it fails and does nothing; or it succeeds, that
-- request is resolved, or aborted, the client has no pending request for the file any more, and
-- the pending requests of all other pairs of a file and a client stay.
pub resolve_request-Ends :
    (f c : Bytes) (gap : RequestStore → RequestStore) (s : RequestStore)
    → IsReachable s
    → Run s (gap s)
    → Ends resolved f c s (gap s) (resolve_request f c gap s)
      × Ends aborted f c s (gap s) (abort_request f c gap s)
unfolding resolve_request abort_request
resolve_request-Ends f c gap s reached others = (
  transition_request-Ends f c resolved gap s reached others refl,
  transition_request-Ends f c aborted gap s reached others refl,
)
