-- ===== src/Text/Number/Print.antt =====
-- A number that is printed is parsed as itself.
use microfat.Base.{
  ℕ, zero, suc, ◌+◌, ◌-◌, ◌*◌, ◌/◌, ◌%◌, ◌^◌, ◌≤◌, ◌<◌, ◌≡◌, ◌≢◌, inl, inr, refl, ap, sym, ◌∙◌,
  true, false, ◌&&◌, some, [], ◌∷◌, ◌++◌, append_assoc, arith, leb, ◌==◌, Bool-cases,
}
use native.Mathlib.Nat.{pow-suc}
use microfat.Text.{Bytes}
use microfat.Words.{IsNonneg, is_neg}
use microfat.Text.Number.{digits_onto, itoa, digits_value, parse_int}

abbrev digit : ℕ → ℕ
digit n = b'0' + n % 10

digits_value-step :
    (acc n : ℕ) (s : Bytes) → digits_value acc (digit n ∷ s) ≡ digits_value (acc * 10 + n % 10) s
unfolding digits_value
digits_value-step acc n s =
    let low : leb b'0' (digit n) && leb (digit n) b'9' ≡ true = ground arith in
    let same : acc * 10 + (digit n - b'0') ≡ acc * 10 + n % 10 = omega arith in
    rw low (ap (λ m. digits_value m s) same)

shorter : (fuel n : ℕ) → n < 10 ^ suc fuel → n / 10 ≢ 0 → (n / 10 < 10 ^ fuel) × (0 < fuel)
shorter zero n h z = absurd (omega (arith, h, z))
shorter (suc fuel) n h z = (omega (arith, h, pow-suc 10 (suc fuel)), omega arith)

-- Reading the digits gives the number, from which the text behind them is read on.
digits_value-digits_onto :
    (fuel n : ℕ) (s : Bytes)
    → n < 10 ^ fuel
    → 0 < fuel
    → digits_value 0 (digits_onto fuel n s) ≡ digits_value n s
unfolding digits_onto
digits_value-digits_onto zero n s h k = absurd (omega (arith, k))
digits_value-digits_onto (suc fuel) n s h k = elim (Bool-cases (n / 10 == 0)) [
  | inl last ↦
      let small : n / 10 ≡ 0 = ground (arith, last) in
      let whole : 0 * 10 + n % 10 ≡ n = omega (arith, small) in
      rw last (digits_value-step 0 n s ∙ ap (λ m. digits_value m s) whole)
  | inr more ↦
      let large : n / 10 ≢ 0 = λ z. ground (arith, more, z) in
      let (fits, some_fuel) = shorter fuel n h large in
      let whole : n / 10 * 10 + n % 10 ≡ n = omega arith in
      rw more (
        digits_value-digits_onto fuel (n / 10) (digit n ∷ s) fits some_fuel
        ∙ digits_value-step (n / 10) n s
        ∙ ap (λ m. digits_value m s) whole)
]

-- The text starts with a digit, and ends with one in front of what is behind it.
first-digit :
    (fuel n : ℕ) (s : Bytes)
    → (c : ℕ) × (rest : Bytes) × (digits_onto (suc fuel) n s ≡ c ∷ rest) × (b'0' ≤ c) × (c ≤ b'9')
unfolding digits_onto
first-digit zero n s = elim (Bool-cases (n / 10 == 0)) [
  | inl e ↦ (digit n, s, rw e refl, omega arith, omega arith)
  | inr e ↦ (digit n, s, rw e refl, omega arith, omega arith)
]
first-digit (suc fuel) n s = elim (Bool-cases (n / 10 == 0)) [
  | inl e ↦ (digit n, s, rw e refl, omega arith, omega arith)
  | inr e ↦ rw e (first-digit fuel (n / 10) (digit n ∷ s))
]

last-digit :
    (fuel n : ℕ) (s : Bytes) → (ds : Bytes) × (digits_onto (suc fuel) n s ≡ ds ++ (digit n ∷ s))
unfolding digits_onto
last-digit zero n s = elim (Bool-cases (n / 10 == 0)) [
  | inl e ↦ ([], rw e refl)
  | inr e ↦ ([], rw e refl)
]
last-digit (suc fuel) n s = elim (Bool-cases (n / 10 == 0)) [
  | inl e ↦ ([], rw e refl)
  | inr e ↦
      let (ds, same) = last-digit fuel (n / 10) (digit n ∷ s) in
      (
        ds ++ (digit (n / 10) ∷ []),
        rw e (same ∙ sym (append_assoc ds (digit (n / 10) ∷ []) (digit n ∷ s))),
      )
]

itoa-digits : (n : ℕ) → IsNonneg n → itoa n ≡ digits_onto 20 n []
unfolding itoa
itoa-digits n h = let e : is_neg n ≡ false = ground (arith, h) in rw e refl

parse_int-digit :
    (c n : ℕ) (rest : Bytes)
    → b'0' ≤ c
    → c ≤ b'9'
    → digits_value 0 (c ∷ rest) ≡ some n
    → IsNonneg n
    → parse_int (c ∷ rest) ≡ some n
unfolding parse_int
parse_int-digit c n rest low high e h =
    let minus : (c == b'-') ≡ false = ground (arith, low) in
    let plus : (c == b'+') ≡ false = ground (arith, low) in
    let small : leb n (2 ^ 63 - 1) ≡ true = ground (arith, h) in rw (minus, plus, e, small) refl

digits_value-end : (n : ℕ) → digits_value n [] ≡ some n
unfolding digits_value
digits_value-end n = refl

-- A printed number is parsed as the number.
pub parse_int-itoa : (n : ℕ) → IsNonneg n → parse_int (itoa n) ≡ some n
parse_int-itoa n h =
    let (c, rest, same, low, high) = first-digit 19 n [] in
    let value : digits_value 0 (digits_onto 20 n []) ≡ digits_value n [] =
      digits_value-digits_onto 20 n [] (omega (arith, h)) (omega arith) in
    rw (itoa-digits n h, same)
      (parse_int-digit c n rest low high (rw same at value ∙ digits_value-end n) h)

-- A printed number ends with a digit.
pub itoa-last :
    (n : ℕ) → IsNonneg n → (ds : Bytes) × (d : ℕ) × (itoa n ≡ ds ++ (d ∷ [])) × (d ≤ b'9')
itoa-last n h =
    let (ds, same) = last-digit 19 n [] in (ds, digit n, itoa-digits n h ∙ same, omega arith)
