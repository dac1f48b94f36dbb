-- ===== src/Words.antt =====
-- Machine words as the code uses them. An `int64` is its bit pattern, a number below 2 ^ 64 that
-- is negative from 2 ^ 63 on, so that the conversions between `int64` and `uint64` change nothing.
-- `encoding/binary`'s LittleEndian is here too: `put_uint n v` is the n bytes of v.
pub mod Signed
use microfat.Base.{
  ℕ, zero, suc, ◌+◌, ◌-◌, ◌*◌, ◌/◌, ◌%◌, ◌^◌, ◌<◌, ◌≡◌, refl, ap, Bool, List, [], ◌∷◌, arith, ltb,
  leb, length, All,
}
use native.Mathlib.Nat.{pow-suc}

abbrev pub IsByte : ℕ → Type 0
IsByte b = b < 256

abbrev pub IsInt64 : ℕ → Type 0
IsInt64 n = n < 2 ^ 64

-- The bit pattern of a number that is at least 0.
abbrev pub IsNonneg : ℕ → Type 0
IsNonneg n = n < 2 ^ 63

-- `a < 0`, `a < b` and `a > b` on `int64`, and the wrapping sum and difference.
abbrev pub is_neg : ℕ → Bool
is_neg a = leb (2 ^ 63) a

abbrev pub lt64 : ℕ → ℕ → Bool
lt64 a b = ltb ((a + 2 ^ 63) % 2 ^ 64) ((b + 2 ^ 63) % 2 ^ 64)

abbrev pub le64 : ℕ → ℕ → Bool
le64 a b = leb ((a + 2 ^ 63) % 2 ^ 64) ((b + 2 ^ 63) % 2 ^ 64)

abbrev pub add64 : ℕ → ℕ → ℕ
add64 a b = (a + b) % 2 ^ 64

abbrev pub sub64 : ℕ → ℕ → ℕ
sub64 a b = (a + 2 ^ 64 - b) % 2 ^ 64

-- The product on `uint64`.
abbrev pub mul64 : ℕ → ℕ → ℕ
mul64 a b = (a * b) % 2 ^ 64

-- The n bytes of v, lowest first, and the value of such bytes.
unfoldable pub put_uint : ℕ → ℕ → List ℕ
put_uint zero v = []
put_uint (suc n) v = (v % 256) ∷ put_uint n (v / 256)

unfoldable pub get_uint : List ℕ → ℕ
get_uint [] = 0
get_uint (b ∷ bs) = b + 256 * get_uint bs

pub length-put_uint : (n v : ℕ) → length (put_uint n v) ≡ n
unfolding put_uint
length-put_uint zero v = refl
length-put_uint (suc n) v = ap suc (length-put_uint n (v / 256))

pub put_uint-IsByte : (n v : ℕ) → All IsByte (put_uint n v)
unfolding put_uint
put_uint-IsByte zero v = tt
put_uint-IsByte (suc n) v = (omega arith, put_uint-IsByte n (v / 256))

-- Reading back what was written, for a value that fits.
pub get_uint-put_uint : (n v : ℕ) → v < 256 ^ n → get_uint (put_uint n v) ≡ v
unfolding get_uint put_uint
get_uint-put_uint zero v h = omega arith
get_uint-put_uint (suc n) v h =
    omega (arith, get_uint-put_uint n (v / 256) (omega (arith, pow-suc 256 n)))

pub get_uint-bound : (bs : List ℕ) → All IsByte bs → get_uint bs < 256 ^ length bs
unfolding get_uint
get_uint-bound [] h = omega arith
get_uint-bound (b ∷ bs) h = omega (arith, get_uint-bound bs h.1, pow-suc 256 (length bs))
