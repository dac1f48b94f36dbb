-- ===== src/Cgroup/ByteSize/Amount.antt =====
-- A number of bytes is read exactly when it is in range, and then it is the rounded value.
use microfat.Base.{
  ℕ, ◌+◌, ◌*◌, ◌/◌, ◌%◌, ◌^◌, ◌≤◌, ◌<◌, ◌≡◌, ◌↔◌, inl, inr, ap, ◌∙◌, [], ◌∷◌, arith, All,
  Bool-cases,
}
use microfat.Text.{Bytes}
use microfat.Result.{ok}
use microfat.Cgroup.ByteSize.{max_int64, read_fraction, add_fraction, read_amount}
use microfat.Cgroup.ByteSize.Whole.{IsDigit, decimal, read_whole_cases}
use microfat.Cgroup.ByteSize.Frac.{pow10, frac_value, IsFraction, read_fraction-IsFraction}
use microfat.Cgroup.ByteSize.Exact.{
  IsRounded, IsRounded-unique, fits_int64, round_of, add_fraction_fits, add_fraction_exceeds,
  fits-parts, exceeds-parts, round-IsRounded, nonzero_half, mul_more,
}

-- The value of a number in parts of a byte, of which there are `pow10 frac_str` to a byte.
abbrev pub parts_of : ℕ → Bytes → Bytes → ℕ
parts_of m whole_str frac_str = (decimal 0 whole_str * pow10 frac_str + frac_value frac_str) * m

-- The value is at most the largest `int64`, and `n` is that value rounded.
pub record Reads (m : ℕ) (whole_str frac_str : Bytes) (n : ℕ) : Type 0 where
  pub in_range : parts_of m whole_str frac_str ≤ max_int64 * pow10 frac_str
  pub rounded : IsRounded (parts_of m whole_str frac_str) (pow10 frac_str) n

pow10_pos : (s : Bytes) → 0 < pow10 s
pow10_pos [] = omega arith
pow10_pos (c ∷ s) = omega (arith, pow10_pos s)

parts_split : (w p v m c r : ℕ) → m * v ≡ c * p + r → (w * p + v) * m ≡ (w * m + c) * p + r
parts_split w p v m c r h = grind arith

whole_range : (w m : ℕ) → 0 < m → w ≤ max_int64 / m → w * m ≤ max_int64
whole_range w m pos h = grind arith

whole_beyond : (w m : ℕ) → 0 < m → max_int64 / m < w → max_int64 < w * m
whole_beyond w m pos h = grind arith

expand : (w m p v : ℕ) → (w * p + v) * m ≡ w * m * p + v * m
expand w m p v = grind arith

beyond-parts : (w m p v : ℕ) → 0 < p → max_int64 < w * m → max_int64 * p < (w * p + v) * m
beyond-parts w m p v pos h =
    let more = mul_more (max_int64 + 1) (w * m) p (omega arith) in rw expand (omega (arith, more))

whole_small : (m : ℕ) → 0 < m → max_int64 / m < 2 ^ 63
whole_small m pos = grind arith

module _ (m : ℕ) (pos : 0 < m) (small : m ≤ 2 ^ 40) where
  -- The whole part is in range: what follows is the rounded value, or the error beyond the range.
  in-range :
      (x : ℕ) (frac_str : Bytes) (parts n : ℕ)
      → x ≤ max_int64
      → (i : IsFraction m (frac_value frac_str) (pow10 frac_str) (read_fraction m frac_str))
      → parts ≡ (x + (read_fraction m frac_str).carry) * pow10 frac_str + i.rest
      → (add_fraction x (read_fraction m frac_str) ≡ ok n)
        ↔ ((parts ≤ max_int64 * pow10 frac_str) × IsRounded parts (pow10 frac_str) n)
  in-range x frac_str parts n h i e =
      let f = read_fraction m frac_str in
      let p = pow10 frac_str in
      let v = frac_value frac_str in
      elim (Bool-cases (fits_int64 x f)) [
        | inl inside ↦
            let done = add_fraction_fits x f (nonzero_half x p f m v i) inside in
            let r = round-IsRounded x p f m v i in
            (
              λ k.
                  let same : x + f.carry + round_of f ≡ n = ground (arith, done, k) in
                  (rw e (fits-parts x p f m v i inside), rw (e, ← same) r),
              λ (k, rounded).
                  let same : x + f.carry + round_of f ≡ n =
                    IsRounded-unique parts p (x + f.carry + round_of f) n (pow10_pos frac_str)
                      (rw e r) rounded in
                  done ∙ ap ok same,
            )
        | inr outside ↦
            let beyond = exceeds-parts x p f m v i outside in
            (
              λ k. cc (k, add_fraction_exceeds x f h outside),
              λ (k, rounded). absurd (omega (arith, beyond, k, e)),
            )
      ]

  -- The two parts of a number in digits are read exactly when their value is in range, and what is read is
  -- the value rounded to the nearest byte, halves up.
  pub read_amount_iff :
      (whole_str frac_str : Bytes) (n : ℕ)
      → All IsDigit whole_str
      → All IsDigit frac_str
      → (read_amount m whole_str frac_str ≡ ok n) ↔ Reads m whole_str frac_str n
  unfolding read_amount
  read_amount_iff whole_str frac_str n ws fs =
      let i = read_fraction-IsFraction m frac_str pos small fs in
      let w = decimal 0 whole_str in
      elim (read_whole_cases (max_int64 / m) 0 whole_str (whole_small m pos) (omega arith) ws) [
        | inl (inside, read) ↦
            let range = whole_range w m pos inside in
            let wraps : (w * m) % 2 ^ 64 ≡ w * m = omega arith in
            let both =
              in-range (w * m) frac_str (parts_of m whole_str frac_str) n range i
                (parts_split w (pow10 frac_str) (frac_value frac_str) m _ _ i.exact) in
            rw (read, wraps)
              (
                λ k. let (a, b) = both.0 k in record { in_range = a; rounded = b },
                λ r. both.1 (r.in_range, r.rounded),
              )
        | inr (outside, failed) ↦
            let beyond =
              beyond-parts w m (pow10 frac_str) (frac_value frac_str) (pow10_pos frac_str)
                (whole_beyond w m pos outside) in
            rw failed (λ k. cc, λ r. absurd (omega (arith, beyond, r.in_range)))
      ]
