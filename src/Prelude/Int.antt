-- ===== src/Prelude/Int.antt =====
-- Go's int64 as an integer in range, and its wrapping operations on the bit pattern.
use Prim.Native.Nat.{ℕ, suc, ◌+◌, ◌-◌, ◌*◌, ◌/◌, ◌%◌, ◌^◌, ◌<◌, ◌≤◌}
use mathlib.Core.Path.{◌≡◌}
use mathlib.Core.Bool.{Bool, true, false}
use native.Mathlib.Omega.{arith}
use cipher.Prelude.Tests.{ltb, ◌==◌, if◌then◌else◌}

-- `negsuc n` is -(n + 1).
pub data ℤ : Type 0 where
  pos : ℕ → ℤ
  negsuc : ℕ → ℤ

-- x > 0
abbrev pub is_positive : ℤ → Bool
is_positive (pos n) = ltb 0 n
is_positive (negsuc n) = false

abbrev pub eq_ℤ : ℤ → ℤ → Bool
eq_ℤ (pos a) (pos b) = a == b
eq_ℤ (pos a) (negsuc b) = false
eq_ℤ (negsuc a) (pos b) = false
eq_ℤ (negsuc a) (negsuc b) = a == b

pub eq_ℤ→eq : (a b : ℤ) → eq_ℤ a b ≡ true → a ≡ b
eq_ℤ→eq a b h = ground arith

-- The 64-bit two's complement pattern of an integer, and back.
abbrev pub to_word : ℤ → ℕ
to_word (pos n) = n % 2 ^ 64
to_word (negsuc n) = 2 ^ 64 - 1 - n % 2 ^ 64

abbrev pub of_word : ℕ → ℤ
of_word w = if ltb w (2 ^ 63) then pos w else negsuc (2 ^ 64 - w - 1)

unfoldable pub mul64 : ℤ → ℤ → ℤ
mul64 a b = of_word (to_word a * to_word b % 2 ^ 64)

unfoldable pub sub64 : ℤ → ℤ → ℤ
sub64 a b = of_word ((to_word a + 2 ^ 64 - to_word b) % 2 ^ 64)

-- Go's `/` by a positive number, which rounds towards zero: -(n + 1) / d is -((n + 1) / d).
abbrev pub negate : ℕ → ℤ
negate n = if n == 0 then pos 0 else negsuc (n - 1)

unfoldable pub quot64 : ℤ → ℕ → ℤ
quot64 (pos n) d = pos (n / d)
quot64 (negsuc n) d = negate (suc n / d)

pub mul64_lem :
    (a b : ℕ) → a < 2 ^ 63 → b < 2 ^ 63 → a * b < 2 ^ 63 → mul64 (pos a) (pos b) ≡ pos (a * b)
unfolding mul64
mul64_lem a b ha hb h = ground arith

pub sub64_lem : (a b : ℕ) → a < 2 ^ 63 → b ≤ a → sub64 (pos a) (pos b) ≡ pos (a - b)
unfolding sub64
sub64_lem a b ha h = ground arith

-- A product that overflows into the sign bit is read as a negative number.
pub mul64_negative :
    (a b : ℕ)
    → a < 2 ^ 64
    → b < 2 ^ 64
    → 2 ^ 63 ≤ a * b
    → a * b < 2 ^ 64
    → mul64 (pos a) (pos b) ≡ negsuc (2 ^ 64 - a * b - 1)
unfolding mul64
mul64_negative a b ha hb lo hi = ground arith

pub sub64-negate_ne_zero :
    (a k : ℕ) → a < 2 ^ 63 → 0 < a → k ≤ 2 ^ 63 → eq_ℤ (sub64 (pos a) (negate k)) (pos 0) ≡ false
unfolding sub64
sub64-negate_ne_zero a k ha pa hk = ground arith

pub negate_not_positive : (k : ℕ) → is_positive (negate k) ≡ false
negate_not_positive k = ground arith

-- A count that a guard has found positive.
abbrev pub pos_part : ℤ → ℕ
pos_part (pos n) = n
pos_part (negsuc n) = 0
