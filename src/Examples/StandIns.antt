-- ===== src/Examples/StandIns.antt =====
-- Stand-ins for the functions that the code calls and this repository does not define.
pub use cipher.Prelude.{zeros}
use cipher.Prelude.{
  ℕ, ◌+◌, ◌%◌, ◌==◌, ◌≡◌, refl, Bool, true, false, ==_refl, [], ◌∷◌, Bytes, length,
}

abbrev pub checksum : Bytes → ℕ
checksum [] = 7
checksum (b ∷ bs) = (b + 3 + checksum bs) % 251

-- A digest of 32 bytes: a checksum and 31 zeros.
abbrev pub digest : Bytes → Bytes
digest b = checksum b ∷ zeros 31

pub length-digest : (b : Bytes) → length (digest b) ≡ 32
length-digest b = refl

-- A signature is valid if it starts with the first byte of the digest.
abbrev pub signed_by : Bytes → Bytes → Bytes → Bool
signed_by key [] s = false
signed_by key (d ∷ ds) [] = false
signed_by key (d ∷ ds) (s ∷ ss) = s == d

abbrev pub first : Bytes → ℕ
first [] = 0
first (b ∷ bs) = b

-- A signature of 64 bytes, the first of which is the message's.
abbrev pub sign : Bytes → Bytes → Bytes
sign key m = first m ∷ zeros 63

abbrev pub verify : Bytes → Bytes → Bytes → Bool
verify key m s = first s == first m

pub sign-verifies : (key m : Bytes) → verify key m (sign key m) ≡ true
sign-verifies key m = ==_refl (first m)
