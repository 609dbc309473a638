-- ===== src/Examples/Requests.antt =====
-- The theorems on availability/proof-of-request at a store with two requests, the first of them ended.
use cipher.Prelude.{
  ◌↔◌, ◌^◌, ℕ, suc, ◌+◌, arith, ◌≡◌, refl, ◌≤◌, ◌==◌, true, false, some, Bytes, bytes, bytes_eq,
  get_elem?, ok, if◌then◌else◌,
}
use cipher.Prelude.Int.{pos}
use cipher.Demand.Requests.{
  Request, RequestRecord, RequestStore, pending, resolved, expired, is_wanted,
  get_or_create_request, transition_record, aborted, resolve_request, abort_request,
  calculate_demand,
}
use cipher.Demand.Sums.{pending_of}
use cipher.Demand.Pending.{new_store}
use cipher.Demand.Histories.{
  Run, stay, more, get_or_create, transition, IsReachable, calculate_demand-pending_of, Run-final,
}
use cipher.Demand.Work.{
  Pow, verify_pow, generate_pow, validate_and_track_request, generate_pow-tracked,
}
use cipher.Demand.Announcements.{
  CacheAnnouncement, IsSized, IsSameSigned, announcement_bytes, build_signing_payload,
  build_signing_payload-IsSameSigned,
}
use cipher.Examples.StandIns.{digest}
use cipher.Demand.Races.{Ends, resolve_request-Ends}
use cipher.Demand.Effects.{active, same, get_or_create_request-adds}

abbrev first : RequestStore
first = (get_or_create_request (pos 5) (bytes "f") (bytes "c") (pos 9) new_store).0

abbrev ended : RequestStore
ended = (transition_record 0 expired first).0

abbrev second : RequestStore
second = (get_or_create_request (pos 8) (bytes "f") (bytes "c") (pos 9) ended).0

one_ended : Run new_store ended
one_ended =
    more _ _ _
      (more _ _ _ (stay new_store)
        (get_or_create (pos 5) (bytes "f") (bytes "c") (pos 9) new_store))
      (transition 0 expired first refl)

second_reached : IsReachable second
second_reached = more _ _ _ one_ended (get_or_create (pos 8) (bytes "f") (bytes "c") (pos 9) ended)

calculate_demand-pending_of_example :
    (calculate_demand (bytes "f") second
      ≡ ok (pending_of (λ r. bytes_eq r.file_id (bytes "f")) second.objects))
    × (pending_of (is_wanted (bytes "f") (bytes "c")) second.objects ≤ 1)
calculate_demand-pending_of_example =
    calculate_demand-pending_of second (bytes "f") (bytes "c") second_reached refl

-- The demand is 1.
demand_of_second : calculate_demand (bytes "f") second ≡ ok 1
unfolding calculate_demand cipher.Demand.Requests.count_where
    cipher.Demand.Requests.get_pending_requests cipher.Demand.Requests.pending_requests
    get_or_create_request cipher.Demand.Requests.find_active transition_record
    cipher.Demand.Requests.add_request cipher.Demand.Requests.create_request
    cipher.Demand.Requests.remove_record cipher.Demand.Requests.with_status bytes_eq
demand_of_second = refl

abbrev expired_record : RequestRecord
expired_record = record {
  request = record {
    file_id = bytes "f";
    client_id = bytes "c";
    timestamp = pos 5;
    status = expired;
  };
  timer = false;
}

-- A late resolution of the first request.
Run-final_example :
    get_elem? (transition_record 0 resolved second).0.objects 0 ≡ some expired_record
unfolding transition_record get_or_create_request cipher.Demand.Requests.find_active
    cipher.Demand.Requests.add_request cipher.Demand.Requests.create_request
    cipher.Demand.Requests.with_status
Run-final_example =
    Run-final 0 expired_record
      (more _ _ _
        (more _ _ _ (stay ended) (get_or_create (pos 8) (bytes "f") (bytes "c") (pos 9) ended))
        (transition 0 resolved second refl))
      refl refl

get_or_create_request-adds_example :
    ((r : Request) × ((get_or_create_request (pos 9) (bytes "f") (bytes "d") (pos 2) second).1
        ≡ ok (some r, active (bytes "f") (bytes "d") second == 0))
      × (is_wanted (bytes "f") (bytes "d") r ≡ true))
    × ((f' c' : Bytes)
        → active f' c' (get_or_create_request (pos 9) (bytes "f") (bytes "d") (pos 2) second).0
          ≡ (if same (bytes "f") (bytes "d") f' c' then 1 else active f' c' second))
get_or_create_request-adds_example =
    get_or_create_request-adds (pos 9) (bytes "f") (bytes "d") (pos 2) second second_reached refl

-- What another client does between the search and the end.
abbrev gap : RequestStore → RequestStore
gap s = (get_or_create_request (pos 9) (bytes "f") (bytes "e") (pos 9) s).0

resolve_request-Ends_example :
    Ends resolved
      (bytes "f")
      (bytes "c")
      second
      (gap second)
      (resolve_request (bytes "f") (bytes "c") gap second)
    × Ends aborted
        (bytes "f")
        (bytes "c")
        second
        (gap second)
        (abort_request (bytes "f") (bytes "c") gap second)
resolve_request-Ends_example =
    resolve_request-Ends (bytes "f") (bytes "c") gap second second_reached
      (more _ _ _ (stay second) (get_or_create (pos 9) (bytes "f") (bytes "e") (pos 9) second))

abbrev worked : Request
worked = record {
  file_id = bytes "f";
  client_id = bytes "c";
  timestamp = pos 5757;
  status = pending;
}

nine_works : verify_pow digest worked (record { nonce = 9; difficulty = 1 }) ≡ true
unfolding verify_pow cipher.Demand.Work.has_prefix cipher.Demand.Work.zeros_text
    cipher.Prelude.Encoding.hex_encode cipher.Demand.Work.pow_input cipher.Prelude.Encoding.decimal
nine_works = refl

generate_pow-tracked_example :
    (proof : Pow) × ((extra : ℕ) → generate_pow digest (suc (9 + extra)) worked 1 ≡ some proof)
    × (proof.nonce ≤ 9)
    × (((r : Request) × ((validate_and_track_request digest (pos 9) worked proof (pos 2) second).1
            ≡ ok (some r))
          × (is_wanted (bytes "f") (bytes "c") r ≡ true))
        × (active
              (bytes "f")
              (bytes "c")
              (validate_and_track_request digest (pos 9) worked proof (pos 2) second).0
            ≡ 1))
generate_pow-tracked_example =
    generate_pow-tracked digest worked 1 9 (pos 9) (pos 2) second (omega arith) nine_works
      second_reached refl

abbrev announcement : CacheAnnouncement
announcement = record {
  provider_id = bytes "p";
  file_id = bytes "f";
  merkle_root = bytes "r";
  version = 1;
  expiry = pos 9;
}

-- The same announcement with an expiry 2^64 nanoseconds later.
abbrev much_later : CacheAnnouncement
much_later = record announcement { expiry = pos (9 + 2 ^ 64) }

announcement-IsSized : IsSized announcement
announcement-IsSized = record {
  provider_size = omega arith;
  file_size = omega arith;
  root_size = omega arith;
  version_bound = omega arith;
}

much_later-IsSized : IsSized much_later
much_later-IsSized = record {
  provider_size = omega arith;
  file_size = omega arith;
  root_size = omega arith;
  version_bound = omega arith;
}

payload_built : build_signing_payload announcement ≡ ok (announcement_bytes announcement)
unfolding build_signing_payload
payload_built = refl

build_signing_payload-IsSameSigned_example :
    (build_signing_payload much_later ≡ ok (announcement_bytes announcement))
    ↔ IsSameSigned announcement much_later
build_signing_payload-IsSameSigned_example =
    build_signing_payload-IsSameSigned announcement much_later (announcement_bytes announcement)
      announcement-IsSized much_later-IsSized payload_built

-- The two share their payload.
much_later-IsSameSigned : IsSameSigned announcement much_later
much_later-IsSameSigned = record {
  provider = refl;
  file = refl;
  root = refl;
  version = refl;
  expiry = refl;
}
