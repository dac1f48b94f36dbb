-- ===== src/Cgroup/ByteSize/Exact.antt =====
-- The parsed size is the exact decimal value, rounded to the nearest byte with halves up.
use microfat.Base.{
  ℕ, ◌+◌, ◌*◌, ◌≤◌, ◌<◌, ◌≡◌, inl, inr, Bool, true, false, arith, Bool-cases, if◌then◌else◌, leb,
  ◌==◌, ◌&&◌, not,
}
use native.Mathlib.Decide.{dec_lt}
use microfat.Result.{ok, err}
use microfat.Cgroup.ByteSize.{too_large, max_int64, Fraction, add_fraction}
use microfat.Cgroup.ByteSize.Frac.{IsFraction}

-- `n` is `parts / pow`, rounded to the nearest number, and up where two are as near.
pub record IsRounded (parts pow n : ℕ) : Type 0 where
  pub not_more : 2 * n * pow ≤ 2 * parts + pow
  pub not_less : 2 * parts + pow < 2 * n * pow + 2 * pow

pub round_of : Fraction → ℕ
round_of f = if leb 5 f.first then 1 else 0

-- The sum is at most the largest `int64`, with nothing left of a byte beyond it.
abbrev pub fits_int64 : ℕ → Fraction → Bool
fits_int64 whole f =
    leb (whole + f.carry) max_int64 && not (whole + f.carry == max_int64 && f.has_nonzero)

pub add_fraction_fits :
    (whole : ℕ) (f : Fraction)
    → (5 ≤ f.first → f.has_nonzero ≡ true)
    → fits_int64 whole f ≡ true
    → add_fraction whole f ≡ ok (whole + f.carry + round_of f)
unfolding add_fraction round_of
add_fraction_fits whole f h e = elim (Bool-cases (leb 5 f.first)) [
  | inl up ↦ let some_rest = h (ground arith) in rw up (ground (arith, some_rest))
  | inr down ↦ rw down (ground arith)
]

pub add_fraction_exceeds :
    (whole : ℕ) (f : Fraction)
    → whole ≤ max_int64
    → fits_int64 whole f ≡ false
    → add_fraction whole f ≡ err too_large
unfolding add_fraction
add_fraction_exceeds whole f h e = ground arith

-- `x` whole bytes and `rest` parts, of which there are `p` to a byte.
module _ (x p rest : ℕ) (below : rest < p) where
  parts_less : (m : ℕ) → x < m → x * p + rest ≤ m * p
  parts_less m h = grind arith

  parts_more : (m : ℕ) → m < x → m * p < x * p + rest
  parts_more m h = grind arith

  IsRounded-down : 2 * rest < p → IsRounded (x * p + rest) p x
  IsRounded-down h = record { not_more = grind arith; not_less = grind arith }

  IsRounded-up : p ≤ 2 * rest → IsRounded (x * p + rest) p (x + 1)
  IsRounded-up h = record { not_more = grind arith; not_less = grind arith }

pub mul_more : (a b p : ℕ) → a ≤ b → a * p ≤ b * p
mul_more a b p h = grind arith

add_zero : (n : ℕ) → n + 0 ≡ n
add_zero n = omega arith

IsRounded-le : (parts p n k : ℕ) → 0 < p → IsRounded parts p n → IsRounded parts p k → n ≤ k
IsRounded-le parts p n k pos h i = elim (dec_lt k n) [
  | yes less ↦
      let a = h.not_more in
      let b = i.not_less in let c = mul_more (k + 1) n p (omega arith) in absurd (omega (arith, c))
  | no other ↦ omega arith
]

-- Only one number is the rounded value.
pub IsRounded-unique : (parts p n k : ℕ) → 0 < p → IsRounded parts p n → IsRounded parts p k → n ≡ k
IsRounded-unique parts p n k pos h i =
    omega (arith, IsRounded-le parts p n k pos h i, IsRounded-le parts p k n pos i h)

module _ (x p : ℕ) (f : Fraction) (m v : ℕ) (i : IsFraction m v p f) where
  pub fits-parts : fits_int64 x f ≡ true → (x + f.carry) * p + i.rest ≤ max_int64 * p
  fits-parts e = elim (dec_lt (x + f.carry) max_int64) [
    | yes less ↦ parts_less (x + f.carry) p i.rest i.below max_int64 less
    | no other ↦
        let at : x + f.carry ≡ max_int64 = ground arith in
        let whole : f.has_nonzero ≡ false = ground arith in rw (at, i.no_rest whole) (omega arith)
  ]

  pub exceeds-parts : fits_int64 x f ≡ false → max_int64 * p < (x + f.carry) * p + i.rest
  exceeds-parts e = elim (dec_lt max_int64 (x + f.carry)) [
    | yes more ↦ parts_more (x + f.carry) p i.rest i.below max_int64 more
    | no other ↦
        let at : x + f.carry ≡ max_int64 = ground arith in
        let some_left : f.has_nonzero ≡ true = ground arith in
        let left = i.some_rest some_left in rw at (omega arith)
  ]

  pub round-IsRounded : IsRounded ((x + f.carry) * p + i.rest) p (x + f.carry + round_of f)
  unfolding round_of
  round-IsRounded = elim (Bool-cases (leb 5 f.first)) [
    | inl up ↦ rw up (IsRounded-up (x + f.carry) p i.rest i.below (i.half_up (ground arith)))
    | inr down ↦
        rw (down, add_zero)
          (IsRounded-down (x + f.carry) p i.rest i.below (i.half_down (ground arith)))
  ]

  pub nonzero_half : 5 ≤ f.first → f.has_nonzero ≡ true
  nonzero_half h = elim (Bool-cases f.has_nonzero) [
    | inl e ↦ e
    | inr e ↦ absurd (omega (arith, i.half_up h, i.no_rest e, i.below))
  ]
