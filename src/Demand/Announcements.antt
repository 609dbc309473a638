-- ===== src/Demand/Announcements.antt =====
-- availability/proof-of-request/cacheAnnouncement. A time is its nanoseconds since 1970, of which
-- UnixNano gives the lowest 64 bits.
use cipher.Prelude.{
  ◌↔◌, ℕ, ◌*◌, ◌-◌, ◌^◌, ◌<◌, ◌≡◌, ap, Bool, false, Bool-cases, inl, inr, ◌++◌, Bytes, is_empty,
  length, arith, Result, ok, err, if◌then◌else◌, [], ◌∙◌, sym,
}
use cipher.Prelude.Int.{ℤ, pos, negsuc, eq_ℤ, to_word}
use cipher.Prelude.Encoding.{prefixed, prefixed-injective, be_bytes, be_bytes-append_injective}

pub record CacheAnnouncement : Type 0 where
  pub provider_id : Bytes
  pub file_id : Bytes
  pub merkle_root : Bytes
  pub version : ℕ
  pub expiry : ℤ

pub record SignedCacheAnnouncement : Type 0 where
  pub announcement : CacheAnnouncement
  pub signature : Bytes

pub data AnnouncementError : Type 0 where
  empty_provider_id empty_file_id empty_merkle_root zero_expiry : AnnouncementError

-- The zero time, the start of the year 1.
abbrev pub zero_time : ℤ
zero_time = negsuc (62135596800 * 10 ^ 9 - 1)

-- CreateCacheAnnouncement
unfoldable pub create_cache_announcement :
    Bytes → Bytes → Bytes → ℕ → ℤ → Result AnnouncementError CacheAnnouncement
create_cache_announcement provider_id file_id merkle_root version expiry =
    if is_empty provider_id
    then err empty_provider_id
    else if is_empty file_id
    then err empty_file_id
    else if is_empty merkle_root
    then err empty_merkle_root
    else if eq_ℤ expiry zero_time
    then err zero_expiry
    else ok (record {
      provider_id = provider_id;
      file_id = file_id;
      merkle_root = merkle_root;
      version = version;
      expiry = expiry;
    })

-- What buildSigningPayload writes: writeString puts the length of a string before it.
unfoldable pub announcement_bytes : CacheAnnouncement → Bytes
announcement_bytes a =
    prefixed a.provider_id
    ++ (prefixed a.file_id
        ++ (prefixed a.merkle_root ++ (be_bytes 8 (to_word a.expiry) ++ be_bytes 8 a.version)))

-- buildSigningPayload
unfoldable pub build_signing_payload : CacheAnnouncement → Result AnnouncementError Bytes
build_signing_payload a =
    if is_empty a.provider_id
    then err empty_provider_id
    else if is_empty a.file_id
    then err empty_file_id
    else if is_empty a.merkle_root
    then err empty_merkle_root
    else ok (announcement_bytes a)

abbrev signed :
    (Bytes → Bytes)
    → CacheAnnouncement
    → Result AnnouncementError Bytes
    → Result AnnouncementError SignedCacheAnnouncement
signed sign a (err e) = err e
signed sign a (ok payload) = ok (record { announcement = a; signature = sign payload })

abbrev verified : (Bytes → Bytes → Bool) → Bytes → Result AnnouncementError Bytes → Bool
verified verify signature (err e) = false
verified verify signature (ok payload) = verify payload signature

module _ (ed25519_sign : Bytes → Bytes → Bytes) where
  -- SignCacheAnnouncement
  unfoldable pub sign_cache_announcement :
      Bytes → CacheAnnouncement → Result AnnouncementError SignedCacheAnnouncement
  sign_cache_announcement private_key a =
      signed (ed25519_sign private_key) a (build_signing_payload a)

module _ (ed25519_verify : Bytes → Bytes → Bytes → Bool) where
  -- VerifyCacheAnnouncement
  unfoldable pub verify_cache_announcement : Bytes → SignedCacheAnnouncement → Bool
  verify_cache_announcement public_key s =
      verified (ed25519_verify public_key) s.signature (build_signing_payload s.announcement)

-- Go's strings are shorter than 2^64 bytes, and a version is a uint64.
pub record IsSized (a : CacheAnnouncement) : Type 0 where
  pub provider_size : length a.provider_id < 2 ^ 64
  pub file_size : length a.file_id < 2 ^ 64
  pub root_size : length a.merkle_root < 2 ^ 64
  pub version_bound : a.version < 2 ^ 64

-- The same announcement, but for an expiry that is the same instant or whole 2^64 nanoseconds away,
-- where UnixNano wraps around.
pub record IsSameSigned (a b : CacheAnnouncement) : Type 0 where
  pub provider : a.provider_id ≡ b.provider_id
  pub file : a.file_id ≡ b.file_id
  pub root : a.merkle_root ≡ b.merkle_root
  pub version : a.version ≡ b.version
  pub expiry : to_word a.expiry ≡ to_word b.expiry

to_word_bound : (x : ℤ) → to_word x < 2 ^ 64
to_word_bound (pos n) = omega arith
to_word_bound (negsuc n) = omega arith

announcement_bytes-IsSameSigned :
    (a b : CacheAnnouncement)
    → IsSized a
    → IsSized b
    → announcement_bytes a ≡ announcement_bytes b
    → IsSameSigned a b
unfolding announcement_bytes
announcement_bytes-IsSameSigned a b f g e =
    let (p, e₁) = prefixed-injective _ _ _ _ f.provider_size g.provider_size e in
    let (q, e₂) = prefixed-injective _ _ _ _ f.file_size g.file_size e₁ in
    let (r, e₃) = prefixed-injective _ _ _ _ f.root_size g.root_size e₂ in
    let (x, e₄) =
      be_bytes-append_injective _ _ _ _ (to_word_bound a.expiry) (to_word_bound b.expiry) e₃ in
    let (v, _) =
      be_bytes-append_injective a.version b.version [] [] f.version_bound g.version_bound
        (ap (λ (x : Bytes). x ++ []) e₄) in
    record { provider = p; file = q; root = r; version = v; expiry = x }

payload_injective : (x y : Bytes) → ◌≡◌ {A = Result AnnouncementError Bytes} (ok x) (ok y) → x ≡ y
payload_injective x y h = cc

build_signing_payload-ok :
    (a : CacheAnnouncement) (payload : Bytes)
    → build_signing_payload a ≡ ok payload
    → announcement_bytes a ≡ payload
unfolding build_signing_payload
build_signing_payload-ok a payload h = elim (Bool-cases (is_empty a.provider_id)) [
  | inl p ↦ absurd (ground (arith, h, p))
  | inr p ↦ elim (Bool-cases (is_empty a.file_id)) [
    | inl q ↦ absurd (ground (arith, h, p, q))
    | inr q ↦ elim (Bool-cases (is_empty a.merkle_root)) [
      | inl r ↦ absurd (ground (arith, h, p, q, r))
      | inr r ↦ payload_injective _ _ (rw (p, q, r, build_signing_payload) at h)
    ]
  ]
]

IsSameSigned-payload :
    (a b : CacheAnnouncement) → IsSameSigned a b → build_signing_payload b ≡ build_signing_payload a
unfolding build_signing_payload announcement_bytes
IsSameSigned-payload a b h = rw (h.provider, h.file, h.root, h.version, h.expiry)

-- The signing payload of a cache announcement fixes all of it up to the wrap-around of its expiry:
-- where buildSigningPayload gives a payload for an announcement, it gives the same for another one
-- exactly if the two have the same provider, file, Merkle root and version, and expiries that are
-- equal as nanoseconds modulo 2^64.
pub build_signing_payload-IsSameSigned :
    (a b : CacheAnnouncement) (payload : Bytes)
    → IsSized a
    → IsSized b
    → build_signing_payload a ≡ ok payload
    → (build_signing_payload b ≡ ok payload) ↔ IsSameSigned a b
build_signing_payload-IsSameSigned a b payload f g h = (
  λ k.
      announcement_bytes-IsSameSigned a b f g
        (build_signing_payload-ok a payload h ∙ sym (build_signing_payload-ok b payload k)),
  λ same. IsSameSigned-payload a b same ∙ h,
)
