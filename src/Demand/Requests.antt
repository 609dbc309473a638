-- ===== src/Demand/Requests.antt =====
-- availability/proof-of-request: model/request.go, request/request.go, demand/tracker.go and
-- validation/validator.go. The store holds pointers to records, which the timers hold too: a pointer is
-- an index into `objects`. What time.Now answers is an argument.
use cipher.Prelude.{
  ℕ, zero, suc, Bool, true, false, not, ◌&&◌, Option, none, some, List, [], ◌∷◌, ◌++◌, Bytes,
  bytes_eq, is_empty, length, get_elem?, ◌==◌, Result, ok, err, if◌then◌else◌,
}
use cipher.Prelude.Int.{ℤ, is_positive}

pub data RequestStatus : Type 0 where
  pending resolved aborted expired : RequestStatus

-- `status == Pending`
abbrev pub is_pending : RequestStatus → Bool
is_pending pending = true
is_pending resolved = false
is_pending aborted = false
is_pending expired = false

pub record Request : Type 0 where
  pub file_id : Bytes
  pub client_id : Bytes
  pub timestamp : ℤ
  pub status : RequestStatus

-- `timer` says that the record has a timer.
pub record RequestRecord : Type 0 where
  pub request : Request
  pub timer : Bool

pub record RequestStore : Type 0 where
  pub objects : List RequestRecord
  pub requests : List ℕ

pub data RequestError : Type 0 where
  lifetime_not_positive empty_file_id : RequestError

-- CreateRequest, which does not fail.
unfoldable pub create_request : ℤ → Bytes → Bytes → Request
create_request now file_id client_id = record {
  file_id = file_id;
  client_id = client_id;
  timestamp = now;
  status = pending;
}

-- A pending request of the client for the file.
abbrev pub is_wanted : Bytes → Bytes → Request → Bool
is_wanted file_id client_id r =
    bytes_eq r.file_id file_id && (bytes_eq r.client_id client_id && is_pending r.status)

abbrev pub is_wanted_record : Bytes → Bytes → Option RequestRecord → Bool
is_wanted_record file_id client_id none = false
is_wanted_record file_id client_id (some x) = is_wanted file_id client_id x.request

-- The search of GetOrCreateRequest and of transitionRequest.
unfoldable pub find_active : Bytes → Bytes → List RequestRecord → List ℕ → Option ℕ
find_active file_id client_id objects [] = none
find_active file_id client_id objects (i ∷ is) =
    if is_wanted_record file_id client_id (get_elem? objects i)
    then some i
    else find_active file_id client_id objects is

-- The record at the end of the store, with its timer.
unfoldable pub add_request : Request → RequestStore → RequestStore
add_request r s = record {
  objects = s.objects ++ (record { request = r; timer = true } ∷ []);
  requests = s.requests ++ (length s.objects ∷ []);
}

-- `record.request`, of a pointer of the store.
abbrev pub request_at : Option RequestRecord → Option Request
request_at none = none
request_at (some x) = some x.request

-- GetOrCreateRequest: the request, and whether it is new.
unfoldable pub get_or_create_request :
    ℤ
    → Bytes
    → Bytes
    → ℤ
    → RequestStore
    → RequestStore × Result RequestError (Option Request × Bool)
get_or_create_request now file_id client_id lifetime s =
    if not (is_positive lifetime)
    then (s, err lifetime_not_positive)
    else elim (find_active file_id client_id s.objects s.requests) [
      | some i ↦ (s, ok (request_at (get_elem? s.objects i), false))
      | none ↦ let r = create_request now file_id client_id in (add_request r s, ok (some r, true))
    ]

-- removeRecordLocked
unfoldable pub remove_record : ℕ → List ℕ → List ℕ
remove_record i [] = []
remove_record i (j ∷ js) = let rest = remove_record i js in if j == i then js else j ∷ rest

-- The record at a pointer with a new status and no timer.
unfoldable pub with_status : ℕ → RequestStatus → List RequestRecord → List RequestRecord
with_status i status [] = []
with_status zero status (x ∷ xs) =
    record { request = record x.request { status = status }; timer = false } ∷ xs
with_status (suc i) status (x ∷ xs) = x ∷ with_status i status xs

abbrev pub is_pending_record : Option RequestRecord → Bool
is_pending_record none = false
is_pending_record (some x) = is_pending x.request.status

-- transitionRecord, without the call of Stop, which changes nothing else. expireRequest is this with
-- Expired.
unfoldable pub transition_record : ℕ → RequestStatus → RequestStore → RequestStore × Bool
transition_record i status s =
    if not (is_pending_record (get_elem? s.objects i)) then (s, false) else (
      record { objects = with_status i status s.objects; requests = remove_record i s.requests },
      true,
    )

-- transitionRequest. It gives up the mutex between its search and its transition: `gap` is what
-- others do to the store in between.
unfoldable pub transition_request :
    Bytes
    → Bytes
    → RequestStatus
    → (RequestStore → RequestStore)
    → RequestStore
    → RequestStore × Bool
transition_request file_id client_id status gap s =
    elim (find_active file_id client_id s.objects s.requests) [
      | none ↦ (s, false)
      | some i ↦ transition_record i status (gap s)
    ]

unfoldable pub resolve_request :
    Bytes → Bytes → (RequestStore → RequestStore) → RequestStore → RequestStore × Bool
resolve_request file_id client_id gap s = transition_request file_id client_id resolved gap s

unfoldable pub abort_request :
    Bytes → Bytes → (RequestStore → RequestStore) → RequestStore → RequestStore × Bool
abort_request file_id client_id gap s = transition_request file_id client_id aborted gap s

abbrev pub append_pending : Option RequestRecord → List Request → List Request
append_pending none rs = rs
append_pending (some x) rs = if is_pending x.request.status then x.request ∷ rs else rs

-- GetPendingRequests
unfoldable pub pending_requests : List RequestRecord → List ℕ → List Request
pending_requests objects [] = []
pending_requests objects (i ∷ is) =
    append_pending (get_elem? objects i) (pending_requests objects is)

unfoldable pub get_pending_requests : RequestStore → List Request
get_pending_requests s = pending_requests s.objects s.requests

unfoldable pub count_where : (Request → Bool) → List Request → ℕ
count_where p [] = 0
count_where p (r ∷ rs) = let n = count_where p rs in if p r then suc n else n

-- CalculateDemand
unfoldable pub calculate_demand : Bytes → RequestStore → Result RequestError ℕ
calculate_demand file_id s =
    if is_empty file_id
    then err empty_file_id
    else ok (count_where (λ r. bytes_eq r.file_id file_id) (get_pending_requests s))

-- ValidateRequest
unfoldable pub validate_request : Request → Bool
validate_request r =
    if is_empty r.file_id
    then false
    else if is_empty r.client_id
    then false
    else if not (is_positive r.timestamp)
    then false
    else is_pending r.status
