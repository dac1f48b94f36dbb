-- ===== src/Cgroup/ByteSize/Whole.antt =====
-- The digits in front of the point: a number, or the error where it is too large.
use microfat.Base.{
  ℕ, ◌+◌, ◌-◌, ◌*◌, ◌/◌, ◌%◌, ◌^◌, ◌≤◌, ◌<◌, ◌≡◌, ◌⊎◌, inl, inr, refl, true, false, [], ◌∷◌, arith,
  All, Bool-cases, ltb, ◌==◌, ◌&&◌, ◌||◌,
}
use microfat.Text.{Bytes}
use microfat.Result.{ok, err}
use microfat.Cgroup.ByteSize.{too_large, read_whole, digit_of}

abbrev pub IsDigit : ℕ → Type 0
IsDigit c = (b'0' ≤ c) × (c ≤ b'9')

-- The number that digits stand for, behind a number that was read.
abbrev pub decimal : ℕ → Bytes → ℕ
decimal acc [] = acc
decimal acc (c ∷ s) = decimal (acc * 10 + (c - b'0')) s

decimal-ge : (acc : ℕ) (s : Bytes) → acc ≤ decimal acc s
decimal-ge acc [] = omega arith
decimal-ge acc (c ∷ s) = omega (arith, decimal-ge (acc * 10 + (c - b'0')) s)

pub digit_of_digit : (c : ℕ) → IsDigit c → digit_of c ≡ c - b'0'
digit_of_digit c h = omega arith

-- The test of the loop says that the next number would exceed the maximum.
exceeds :
    (m acc d : ℕ)
    → d ≤ 9
    → (ltb (m / 10) acc || acc == m / 10 && ltb (m % 10) d) ≡ true
    → m < acc * 10 + d
exceeds m acc d h e = ground arith

fits :
    (m acc d : ℕ)
    → d ≤ 9
    → (ltb (m / 10) acc || acc == m / 10 && ltb (m % 10) d) ≡ false
    → acc * 10 + d ≤ m
fits m acc d h e = ground arith

-- Up to the maximum the number is read, and beyond it there is the error.
pub read_whole_cases :
    (m acc : ℕ) (s : Bytes)
    → m < 2 ^ 63
    → acc ≤ m
    → All IsDigit s
    → ((decimal acc s ≤ m) × (read_whole m acc s ≡ ok (decimal acc s)))
      ⊎ ((m < decimal acc s) × (read_whole m acc s ≡ err too_large))
unfolding read_whole
read_whole_cases m acc [] small h ds = inl (h, refl)
read_whole_cases m acc (c ∷ s) small h (d, ds) =
    let e = digit_of_digit c d in
    elim (Bool-cases (ltb (m / 10) acc || acc == m / 10 && ltb (m % 10) (c - b'0'))) [
      | inl over ↦
          let big = exceeds m acc (c - b'0') (omega arith) over in
          inr (omega (arith, decimal-ge (acc * 10 + (c - b'0')) s), rw (e, over) refl)
      | inr under ↦
          let next = fits m acc (c - b'0') (omega arith) under in
          let wraps : (acc * 10 + (c - b'0')) % 2 ^ 64 ≡ acc * 10 + (c - b'0') = omega arith in
          rw (e, under, wraps) (read_whole_cases m (acc * 10 + (c - b'0')) s small next ds)
    ]
