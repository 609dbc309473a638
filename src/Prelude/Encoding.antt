-- ===== src/Prelude/Encoding.antt =====
-- Fixed-width and textual encodings of the Go standard library: encoding/binary, encoding/hex,
-- math/big's SetBytes and the decimal form of a uint64.
use Prim.Native.Nat.{ℕ, zero, suc, ◌+◌, ◌*◌, ◌/◌, ◌%◌, ◌-◌, ◌^◌, ◌<◌}
use mathlib.Core.Path.{◌≡◌, refl, sym, ◌∙◌}
use mathlib.Core.Bool.{◌&&◌}
use mathlib.Core.Option.{Option, some, none}
use mathlib.Core.List.{[], ◌∷◌, ◌++◌, append_assoc}
use native.Mathlib.Omega.{arith}
use cipher.Prelude.Tests.{ltb, leb, if◌then◌else◌}
use cipher.Prelude.Lists.{length, All, length-append, append_injective_left, append_injective_right}
use cipher.Prelude.Strings.{Bytes}

hex_digit : ℕ → ℕ
hex_digit n = if ltb n 10 then b'0' + n else b'a' + n - 10

-- hex.EncodeToString
unfoldable pub hex_encode : Bytes → Bytes
unfolding hex_digit
hex_encode [] = []
hex_encode (b ∷ bs) = hex_digit (b / 16) ∷ hex_digit (b % 16) ∷ hex_encode bs

-- new(big.Int).SetBytes: the number that the bytes write, the highest first.
be_value_from : ℕ → Bytes → ℕ
be_value_from acc [] = acc
be_value_from acc (b ∷ bs) = be_value_from (256 * acc + b) bs

unfoldable pub be_value : Bytes → ℕ
unfolding be_value_from
be_value bs = be_value_from 0 bs

-- `k` little-endian bytes of `n`.
unfoldable pub le_bytes : ℕ → ℕ → Bytes
le_bytes zero n = []
le_bytes (suc k) n = n % 256 ∷ le_bytes k (n / 256)

-- The number that little-endian bytes write.
unfoldable pub le_value : Bytes → ℕ
le_value [] = 0
le_value (b ∷ bs) = b + 256 * le_value bs

-- binary.BigEndian.PutUint64 and its kin: `k` bytes, the highest first.
unfoldable pub be_bytes : ℕ → ℕ → Bytes
be_bytes zero n = []
be_bytes (suc k) n = be_bytes k (n / 256) ++ (n % 256 ∷ [])

-- At most `k` decimal digits, with no leading zero.
decimal_digits : ℕ → ℕ → Bytes
decimal_digits zero n = []
decimal_digits (suc k) n =
    let front = decimal_digits k (n / 10) in
    (if ltb n 10 then [] else front) ++ ((b'0' + n % 10) ∷ [])

-- `%d` of a uint64, which has at most 20 digits.
unfoldable pub decimal : ℕ → Bytes
unfolding decimal_digits
decimal n = decimal_digits 20 n

pub length-le_bytes : (k n : ℕ) → length (le_bytes k n) ≡ k
unfolding le_bytes
length-le_bytes zero n = refl
length-le_bytes (suc k) n = omega (arith, length-le_bytes k (n / 256))

pub le_value-le_bytes : (k n : ℕ) → n < 256 ^ k → le_value (le_bytes k n) ≡ n
unfolding le_value le_bytes
le_value-le_bytes zero n h = omega arith
le_value-le_bytes (suc k) n h = omega (arith, le_value-le_bytes k (n / 256) (omega arith))

pub length-be_bytes : (k n : ℕ) → length (be_bytes k n) ≡ k
unfolding be_bytes
length-be_bytes zero n = refl
length-be_bytes (suc k) n =
    omega (arith, length-append (be_bytes k (n / 256)) (n % 256 ∷ []), length-be_bytes k (n / 256))

pub be_bytes-injective :
    (k n m : ℕ) → n < 256 ^ k → m < 256 ^ k → be_bytes k n ≡ be_bytes k m → n ≡ m
unfolding be_bytes
be_bytes-injective zero n m hn hm e = omega (arith, hn, hm)
be_bytes-injective (suc k) n m hn hm e =
    let size = length-be_bytes k (n / 256) ∙ sym (length-be_bytes k (m / 256)) in
    let front =
      append_injective_left (be_bytes k (n / 256)) (be_bytes k (m / 256)) (n % 256 ∷ [])
        (m % 256 ∷ []) size e in
    let last =
      append_injective_right (be_bytes k (n / 256)) (be_bytes k (m / 256)) (n % 256 ∷ [])
        (m % 256 ∷ []) size e in
    let q = be_bytes-injective k (n / 256) (m / 256) (omega arith) (omega arith) front in
    let r : n % 256 ≡ m % 256 = cc in omega (arith, q, r)

-- A string behind its length as a big-endian uint64.
unfoldable pub prefixed : Bytes → Bytes
prefixed s = be_bytes 8 (length s % 2 ^ 64) ++ s

-- What follows a prefixed string is told from it.
pub prefixed-injective :
    (s t a b : Bytes)
    → length s < 2 ^ 64
    → length t < 2 ^ 64
    → prefixed s ++ a ≡ prefixed t ++ b
    → (s ≡ t) × (a ≡ b)
unfolding prefixed
prefixed-injective s t a b hs ht e =
    let ns = length s % 2 ^ 64 in
    let nt = length t % 2 ^ 64 in
    let e' = sym (append_assoc (be_bytes 8 ns) s a) ∙ e ∙ append_assoc (be_bytes 8 nt) t b in
    let size = length-be_bytes 8 ns ∙ sym (length-be_bytes 8 nt) in
    let n =
      be_bytes-injective 8 ns nt (omega arith) (omega arith)
        (append_injective_left (be_bytes 8 ns) (be_bytes 8 nt) (s ++ a) (t ++ b) size e') in
    let rest = append_injective_right (be_bytes 8 ns) (be_bytes 8 nt) (s ++ a) (t ++ b) size e' in
    let same : length s ≡ length t = omega (arith, n, hs, ht) in
    (append_injective_left s t a b same rest, append_injective_right s t a b same rest)

-- The same for a big-endian uint64.
pub be_bytes-append_injective :
    (n m : ℕ) (a b : Bytes)
    → n < 2 ^ 64
    → m < 2 ^ 64
    → be_bytes 8 n ++ a ≡ be_bytes 8 m ++ b
    → (n ≡ m) × (a ≡ b)
be_bytes-append_injective n m a b hn hm e =
    let size = length-be_bytes 8 n ∙ sym (length-be_bytes 8 m) in
    (
      be_bytes-injective 8 n m (omega (arith, hn)) (omega (arith, hm))
          (append_injective_left (be_bytes 8 n) (be_bytes 8 m) a b size e),
      append_injective_right (be_bytes 8 n) (be_bytes 8 m) a b size e,
    )

-- One digit of hex.DecodeString, in lower or upper case.
abbrev digit_value : ℕ → Option ℕ
digit_value c =
    if leb b'0' c && leb c b'9'
    then some (c - b'0')
    else if leb b'a' c && leb c b'f'
    then some (c + 10 - b'a')
    else if leb b'A' c && leb c b'F'
    then some (c + 10 - b'A')
    else none

abbrev put_byte : Option ℕ → Option ℕ → Option Bytes → Option Bytes
put_byte (some a) (some b) (some bs) = some ((16 * a + b) ∷ bs)
put_byte _ _ _ = none

-- hex.DecodeString: `none` for an odd length or a character that is no digit.
unfoldable pub hex_decode : Bytes → Option Bytes
hex_decode [] = some []
hex_decode (c ∷ []) = none
hex_decode (c ∷ d ∷ cs) = put_byte (digit_value c) (digit_value d) (hex_decode cs)

digit-digit : (n : ℕ) → n < 16 → digit_value (hex_digit n) ≡ some n
unfolding hex_digit
digit-digit n h = ground arith

pub hex_decode-hex_encode :
    (bs : Bytes) → All (λ b. b < 256) bs → hex_decode (hex_encode bs) ≡ some bs
unfolding hex_decode hex_encode
hex_decode-hex_encode [] h = refl
hex_decode-hex_encode (b ∷ bs) h =
    let q = hex_decode-hex_encode bs h.1 in
    let k : 16 * (b / 16) + b % 16 ≡ b = omega arith in
    rw (digit-digit (b / 16) (omega (arith, h.0)), digit-digit (b % 16) (omega arith), q, k) refl

pub length-hex_encode : (bs : Bytes) → length (hex_encode bs) ≡ 2 * length bs
unfolding hex_encode
length-hex_encode [] = refl
length-hex_encode (b ∷ bs) = omega (arith, length-hex_encode bs)
