-- ===== src/Cgroup/ByteSize/Frac.antt =====
-- The digits behind the point: whole bytes, and what is left of a byte.
use microfat.Base.{
  ℕ, ◌+◌, ◌-◌, ◌*◌, ◌/◌, ◌%◌, ◌^◌, ◌≤◌, ◌<◌, ◌≡◌, refl, ap, Bool, true, false, [], ◌∷◌, arith, All,
  ◌==◌, ◌||◌, not,
}
use microfat.Text.{Bytes}
use microfat.Cgroup.ByteSize.{Fraction, read_fraction}
use microfat.Cgroup.ByteSize.Whole.{IsDigit, digit_of_digit}

-- 10 to the number of digits, and the number that the digits stand for.
abbrev pub pow10 : Bytes → ℕ
pow10 [] = 1
pow10 (c ∷ s) = 10 * pow10 s

abbrev pub frac_value : Bytes → ℕ
frac_value [] = 0
frac_value (c ∷ s) = (c - b'0') * pow10 s + frac_value s

-- `carry` whole bytes and `rest` parts of a byte, of which there are 10 to the number of digits.
pub record IsFraction (multiplier value pow : ℕ) (f : Fraction) : Type 0 where
  pub rest : ℕ
  pub exact : multiplier * value ≡ f.carry * pow + rest
  pub below : rest < pow
  pub carry_small : f.carry < multiplier
  pub half_up : 5 ≤ f.first → pow ≤ 2 * rest
  pub half_down : f.first < 5 → 2 * rest < pow
  pub some_rest : f.has_nonzero ≡ true → 0 < rest
  pub no_rest : f.has_nonzero ≡ false → rest ≡ 0

exact_step :
    (m d p v c r q t : ℕ)
    → m * v ≡ c * p + r
    → d * m + c ≡ q * 10 + t
    → m * (d * p + v) ≡ q * (10 * p) + (t * p + r)
exact_step m d p v c r q t h e = omega (arith, ap (λ (x : ℕ). x * p) e)

below_step : (p r t : ℕ) → r < p → t ≤ 9 → t * p + r < 10 * p
below_step p r t h k = grind arith

up_step : (p r t : ℕ) → 5 ≤ t → 10 * p ≤ 2 * (t * p + r)
up_step p r t k = grind arith

down_step : (p r t : ℕ) → r < p → t < 5 → 2 * (t * p + r) < 10 * p
down_step p r t h k = grind arith

word_small : (m d c : ℕ) → m ≤ 2 ^ 40 → d ≤ 9 → c < m → d * m + c < 10 * m
word_small m d c small h k = grind arith

product_pos : (t p : ℕ) → 0 < t → 0 < p → 0 < t * p
product_pos t p h k = grind arith

some_step :
    (b : Bool) (t p r : ℕ) → 0 < p → (b ≡ true → 0 < r) → (b || not (t == 0)) ≡ true → 0 < t * p + r
some_step true t p r pos h e = omega (arith, h refl)
some_step false t p r pos h e =
    let digit : 0 < t = ground arith in omega (arith, product_pos t p digit pos)

no_step : (b : Bool) (t p r : ℕ) → (b ≡ false → r ≡ 0) → (b || not (t == 0)) ≡ false → t * p + r ≡ 0
no_step true t p r h e = cc
no_step false t p r h e =
    let zero_digit : t ≡ 0 = ground arith in rw (zero_digit, h refl) (omega arith)

-- One round of the loop, with the value `w` of its word.
add_digit :
    (m d p v w : ℕ) (f : Fraction)
    → d ≤ 9
    → w ≡ d * m + f.carry
    → w < 10 * m
    → IsFraction m v p f
    → IsFraction m (d * p + v) (10 * p) (record {
      carry = w / 10;
      first = w % 10;
      has_nonzero = f.has_nonzero || not (w % 10 == 0);
    })
add_digit m d p v w f h e k i = record {
  rest = (w % 10) * p + i.rest;
  exact = exact_step m d p v f.carry i.rest (w / 10) (w % 10) i.exact (omega arith);
  below = below_step p i.rest (w % 10) i.below (omega arith);
  carry_small = omega arith;
  half_up = λ t. up_step p i.rest (w % 10) t;
  half_down = λ t. down_step p i.rest (w % 10) i.below t;
  some_rest = some_step f.has_nonzero (w % 10) p i.rest (omega arith) i.some_rest;
  no_rest = no_step f.has_nonzero (w % 10) p i.rest i.no_rest;
}

pub read_fraction-IsFraction :
    (m : ℕ) (s : Bytes)
    → 0 < m
    → m ≤ 2 ^ 40
    → All IsDigit s
    → IsFraction m (frac_value s) (pow10 s) (read_fraction m s)
unfolding read_fraction
read_fraction-IsFraction m [] pos small h = record {
  rest = 0;
  exact = omega arith;
  below = omega arith;
  carry_small = pos;
  half_up = λ k. absurd (omega arith);
  half_down = λ k. omega arith;
  some_rest = λ k. cc;
  no_rest = λ k. refl;
}
read_fraction-IsFraction m (c ∷ s) pos small (h, hs) =
    let i = read_fraction-IsFraction m s pos small hs in
    let f = read_fraction m s in
    let k = word_small m (c - b'0') f.carry small (omega arith) i.carry_small in
    let wraps : ((c - b'0') * m + f.carry) % 2 ^ 64 ≡ (c - b'0') * m + f.carry = omega arith in
    rw (digit_of_digit c h, wraps)
      (add_digit m (c - b'0') (pow10 s) (frac_value s) _ f (omega arith) refl k i)
