-- ===== src/Words/Signed.antt =====
-- `min`, `max` and the division on `int64`, on bit patterns.
use microfat.Base.{ℕ, ◌-◌, ◌/◌, ◌%◌, ◌^◌, ◌≤◌, ◌<◌, ◌≡◌, false, arith, ltb, leb, if◌then◌else◌}
use microfat.Words.{IsInt64, IsNonneg, is_neg, lt64, le64}

abbrev pub min64 : ℕ → ℕ → ℕ
min64 a b = if lt64 b a then b else a

abbrev pub max64 : ℕ → ℕ → ℕ
max64 a b = if lt64 a b then b else a

-- `a / d` for a positive `d`: a quotient of a negative number is rounded towards 0.
unfoldable pub div64 : ℕ → ℕ → ℕ
div64 a d = if is_neg a then (2 ^ 64 - (2 ^ 64 - a) / d) % 2 ^ 64 else a / d

-- On numbers that are at least 0 the tests are those on natural numbers.
pub lt64_nonneg : (a b : ℕ) → IsNonneg a → IsNonneg b → lt64 a b ≡ ltb a b
lt64_nonneg a b h k = ground arith

pub le64_nonneg : (a b : ℕ) → IsNonneg a → IsNonneg b → le64 a b ≡ leb a b
le64_nonneg a b h k = ground arith

-- A number that is at most 0 is 0 or negative.
pub le64-zero_false : (a : ℕ) → IsInt64 a → le64 a 0 ≡ false → (0 < a) × IsNonneg a
le64-zero_false a i e = ground arith

pub div64_nonneg : (a d : ℕ) → IsNonneg a → div64 a d ≡ a / d
unfolding div64
div64_nonneg a d h = ground arith

-- The least of two numbers of which one is at least 0, where it is positive.
pub min64_pos :
    (a b : ℕ)
    → IsInt64 a
    → IsNonneg b
    → le64 (min64 a b) 0 ≡ false
    → (0 < min64 a b) × (min64 a b ≤ a) × (min64 a b ≤ b) × IsNonneg a
min64_pos a b i h e = ground arith
