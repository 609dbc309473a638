-- ===== src/Demand/Work.antt =====
-- availability/proof-of-request/security/pow.go, and ValidateAndTrackRequest of
-- integration/availability/demand_bridge.go.
use cipher.Prelude.{
  ℕ, zero, suc, ◌+◌, ◌%◌, ◌^◌, ◌<◌, ◌≤◌, ◌==◌, ◌≡◌, refl, Bool, true, false, not, ◌&&◌, Option,
  none, some, Bool-cases, inl, inr, [], ◌∷◌, ◌++◌, Bytes, arith, Result, ok, err, if◌then◌else◌,
  bytes_eq_refl, ◌∙◌, sym, ap,
}
use cipher.Prelude.Int.{ℤ, pos, negsuc, is_positive}
use cipher.Prelude.Encoding.{decimal, hex_encode}
use cipher.Demand.Requests.{Request, RequestStore, RequestError, is_wanted, get_or_create_request}
use cipher.Demand.Histories.{IsReachable}
use cipher.Demand.Effects.{active, same, get_or_create_request-adds}

pub record Pow : Type 0 where
  pub nonce : ℕ
  pub difficulty : ℕ

-- strings.Repeat("0", n)
unfoldable pub zeros_text : ℕ → Bytes
zeros_text zero = []
zeros_text (suc n) = b'0' ∷ zeros_text n

-- strings.HasPrefix(text, prefix)
unfoldable pub has_prefix : Bytes → Bytes → Bool
has_prefix [] text = true
has_prefix (p ∷ ps) [] = false
has_prefix (p ∷ ps) (t ∷ ts) = p == t && has_prefix ps ts

-- strconv.FormatInt(n, 10)
abbrev pub format_int : ℤ → Bytes
format_int (pos n) = decimal n
format_int (negsuc n) = b'-' ∷ decimal (suc n)

unfoldable pub pow_input : Request → ℕ → Bytes
pow_input req nonce = req.client_id ++ (req.file_id ++ (format_int req.timestamp ++ decimal nonce))

pub data TrackError : Type 0 where
  pow_failed : TrackError
  track_failed : RequestError → TrackError

abbrev pub tracked :
    RequestStore × Result RequestError (Option Request × Bool)
    → RequestStore × Result TrackError (Option Request)
tracked (s, ok (r, fresh)) = (s, ok r)
tracked (s, err e) = (s, err (track_failed e))

tracked_lem :
    (x : RequestStore × Result RequestError (Option Request × Bool)) (r : Request) (fresh : Bool)
    → x.1 ≡ ok (some r, fresh)
    → ((tracked x).1 ≡ ok (some r)) × ((tracked x).0 ≡ x.0)
tracked_lem (s, ok (o, b)) r fresh h = let e : o ≡ some r = cc in (ap ok e, refl)
tracked_lem (s, err e) r fresh h = absurd (cc)

module _ (sha256 : Bytes → Bytes) where
  -- VerifyPoW
  unfoldable pub verify_pow : Request → Pow → Bool
  verify_pow req proof =
      has_prefix (zeros_text proof.difficulty) (hex_encode (sha256 (pow_input req proof.nonce)))

  -- The loop of GeneratePoW, with a nonce that wraps around: none when the fuel does not do.
  unfoldable pub search_nonce : ℕ → Request → ℕ → ℕ → Option Pow
  search_nonce zero req difficulty nonce = none
  search_nonce (suc fuel) req difficulty nonce =
      let proof : Pow = record { nonce = nonce; difficulty = difficulty } in
      let rest = search_nonce fuel req difficulty ((nonce + 1) % 2 ^ 64) in
      if has_prefix (zeros_text difficulty) (hex_encode (sha256 (pow_input req nonce)))
      then some proof
      else rest

  -- GeneratePoW
  unfoldable pub generate_pow : ℕ → Request → ℕ → Option Pow
  generate_pow fuel req difficulty = search_nonce fuel req difficulty 0

  -- ValidateAndTrackRequest
  unfoldable pub validate_and_track_request :
      ℤ → Request → Pow → ℤ → RequestStore → RequestStore × Result TrackError (Option Request)
  validate_and_track_request now req proof lifetime s =
      if not (verify_pow req proof)
      then (s, err pow_failed)
      else tracked (get_or_create_request now req.file_id req.client_id lifetime s)

  module _ (req : Request) (difficulty : ℕ) where
    abbrev pub pow : ℕ → Pow
    pow nonce = record { nonce = nonce; difficulty = difficulty }

    search_nonce-hit :
        (fuel m : ℕ)
        → verify_pow req (pow m) ≡ true
        → search_nonce (suc fuel) req difficulty m ≡ some (pow m)
    unfolding verify_pow search_nonce
    search_nonce-hit fuel m h = rw h refl

    search_nonce-miss :
        (fuel m : ℕ)
        → verify_pow req (pow m) ≡ false
        → m + 1 < 2 ^ 64
        → search_nonce (suc fuel) req difficulty m ≡ search_nonce fuel req difficulty (m + 1)
    unfolding verify_pow search_nonce
    search_nonce-miss fuel m h small =
        let next : (m + 1) % 2 ^ 64 ≡ m + 1 = omega (arith, small) in rw (h, next) refl

    -- From any nonce the loop ends at the first that does, not later than one that is known to.
    search_nonce-finds :
        (k m : ℕ)
        → m + k < 2 ^ 64
        → verify_pow req (pow (m + k)) ≡ true
        → (nonce : ℕ) × (verify_pow req (pow nonce) ≡ true)
          × (nonce ≤ m + k)
          × ((extra : ℕ) → search_nonce (suc (k + extra)) req difficulty m ≡ some (pow nonce))
    search_nonce-finds zero m small v =
        let here : verify_pow req (pow m) ≡ true =
          ap (λ n. verify_pow req (pow n)) (omega arith) ∙ v in
        (m, here, omega arith, λ extra. search_nonce-hit (0 + extra) m here)
    search_nonce-finds (suc k) m small v = elim (Bool-cases (verify_pow req (pow m))) [
      | inl here ↦ (m, here, omega arith, λ extra. search_nonce-hit (suc k + extra) m here)
      | inr miss ↦
          let e : m + 1 + k ≡ m + suc k = omega arith in
          let there : verify_pow req (pow (m + 1 + k)) ≡ true =
            ap (λ n. verify_pow req (pow n)) e ∙ v in
          let (nonce, found, least, runs) =
            search_nonce-finds k (m + 1) (omega (arith, small)) there in
          (
            nonce,
            found,
            omega (arith, least),
            λ extra.
                let next : suc k + extra ≡ suc (k + extra) = omega arith in
                search_nonce-miss (suc k + extra) m miss (omega (arith, small))
                ∙ ap (λ f. search_nonce f req difficulty (m + 1)) next
                ∙ runs extra,
          )
    ]

  -- If some nonce below 2^64 makes a proof of the wanted difficulty, then GeneratePoW ends, with any
  -- fuel above that nonce it gives one proof, whose nonce is not larger, and with this proof
  -- ValidateAndTrackRequest, for a positive lifetime and in every reachable store, returns a pending
  -- request of the client for the file, which is then active.
  pub generate_pow-tracked :
      (req : Request) (difficulty n : ℕ) (now lifetime : ℤ) (s : RequestStore)
      → n < 2 ^ 64
      → verify_pow req (record { nonce = n; difficulty = difficulty }) ≡ true
      → IsReachable s
      → is_positive lifetime ≡ true
      → (proof : Pow) × ((extra : ℕ) → generate_pow (suc (n + extra)) req difficulty ≡ some proof)
        × (proof.nonce ≤ n)
        × (let x = validate_and_track_request now req proof lifetime s in
            ((r : Request) × (x.1 ≡ ok (some r)) × (is_wanted req.file_id req.client_id r ≡ true))
            × (active req.file_id req.client_id x.0 ≡ 1))
  unfolding generate_pow validate_and_track_request
  generate_pow-tracked req difficulty n now lifetime s small v reached positive =
      let e : n ≡ 0 + n = omega arith in
      let there = ap (λ n. verify_pow req (pow req difficulty n)) (sym e) ∙ v in
      let (nonce, found, least, runs) =
        search_nonce-finds req difficulty n 0 (omega (arith, small)) there in
      let proof = pow req difficulty nonce in
      let ((r, given, w), adds) =
        get_or_create_request-adds now req.file_id req.client_id lifetime s reached positive in
      let x = get_or_create_request now req.file_id req.client_id lifetime s in
      let run : validate_and_track_request now req proof lifetime s ≡ tracked x = rw found refl in
      let (answer, kept) = tracked_lem x r _ given in
      let q = adds req.file_id req.client_id in
      let both : same req.file_id req.client_id req.file_id req.client_id ≡ true =
        ground (arith, bytes_eq_refl req.file_id, bytes_eq_refl req.client_id) in
      (
        proof,
        runs,
        omega (arith, least),
        rw run
            ((r, answer, w), ap (active req.file_id req.client_id) kept ∙ ground (arith, q, both)),
      )
