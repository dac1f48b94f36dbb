-- ===== src/Cgroup/ByteSize/Parse.antt =====
-- The text of a size: digits with at most one point, and a unit.
use microfat.Base.{
  ℕ, suc, ◌+◌, ◌^◌, ◌≤◌, ◌<◌, ◌≡◌, ◌↔◌, inl, inr, refl, ap, sym, Bool, true, false, List, [], ◌∷◌,
  ◌++◌, arith, All, Bool-cases, Option, none, some, length, take, drop, take-append, append_assoc,
  length-append, ◌==◌, ◌&&◌, ltb, leb,
}
use microfat.Text.{Bytes, bytes_eq, trim_space, is_empty}
use microfat.Result.{Result, panic, ok, err, >>=-eq-ok}
use microfat.Microarch.Level.{switch}
use microfat.Cgroup.ByteSize.{
  SizeError, Scan, Token, is_digit, is_some, scan_number, start_scan, cut_token,
  split_byte_size_token, resolve_byte_multiplier, whole_part, frac_part, read_amount,
  parse_byte_size,
}
use microfat.Cgroup.ByteSize.Whole.{IsDigit}
use microfat.Cgroup.ByteSize.Amount.{Reads, read_amount_iff}

-- Digits, or digits on both sides of a point at the index `j`.
abbrev Shape : Bytes → Option ℕ → Type 0
Shape s none = All IsDigit s
Shape s (some j) =
    (ws : Bytes) × (fs : Bytes) × (s ≡ ws ++ (b'.' ∷ fs))
    × (length ws ≡ j)
    × All IsDigit ws
    × All IsDigit fs

-- What the scan of `s` has read when it ends.
record Scanned (s : Bytes) (c : Scan) : Type 0 where
  front : Bytes
  back : Bytes
  split : s ≡ front ++ back
  at_end : c.at ≡ length front
  shape : Shape front c.dot

All-append : (xs ys : Bytes) → All IsDigit xs → All IsDigit ys → All IsDigit (xs ++ ys)
All-append [] ys h k = k
All-append (x ∷ xs) ys h k = (h.0, All-append xs ys h.1 k)

Shape-digit :
    (s : Bytes) (dot : Option ℕ) (c : ℕ) → IsDigit c → Shape s dot → Shape (s ++ (c ∷ [])) dot
Shape-digit s none c d h = All-append s (c ∷ []) h (d, tt)
Shape-digit s (some j) c d (ws, fs, e, l, hw, hf) =
    (ws, fs ++ (c ∷ []), rw (e, append_assoc) refl, l, hw, All-append fs (c ∷ []) hf (d, tt))

is_digit_sound : (c : ℕ) → is_digit c ≡ true → IsDigit c
is_digit_sound c e = ground (arith, e)

point_once : (dot : Option ℕ) → is_some dot ≡ false → dot ≡ none
point_once none e = refl
point_once (some a) e = cc e

Shape-none : (s : Bytes) (dot : Option ℕ) → dot ≡ none → Shape s dot → All IsDigit s
Shape-none s none e h = h
Shape-none s (some j) e h = cc e

scan_number-Scanned :
    (s front : Bytes) (c : Scan) {c' : Scan}
    → c.at ≡ length front
    → Shape front c.dot
    → scan_number s c ≡ ok c'
    → Scanned (front ++ s) c'
unfolding scan_number
scan_number-Scanned [] front c {c'} here shape e =
    let same : c ≡ c' = ground (arith, e) in
    rw (← same) (record { front = front; back = []; split = refl; at_end = here; shape = shape })
scan_number-Scanned (ch ∷ s) front c {c'} here shape e =
    let longer : c.at + 1 ≡ length (front ++ (ch ∷ [])) = rw length-append (omega (arith, here)) in
    let joined : (front ++ (ch ∷ [])) ++ s ≡ front ++ (ch ∷ s) = append_assoc front (ch ∷ []) s in
    elim (Bool-cases (is_digit ch)) [
      | inl d ↦ rw (← joined) (
          scan_number-Scanned s (front ++ (ch ∷ []))
            (record c { at = c.at + 1; digits_count = c.digits_count + 1 }) longer
            (Shape-digit front c.dot ch (is_digit_sound ch d) shape) (ground (arith, e, d)))
      | inr d ↦ elim (Bool-cases (ch == b'.')) [
        | inl p ↦
            let none_yet : c.dot ≡ none = point_once c.dot (ground (arith, e, d, p)) in
            rw (← joined) (
              scan_number-Scanned s (front ++ (ch ∷ []))
                (record c { at = c.at + 1; dot = some c.at }) longer
                (
                  front,
                  [],
                  ap (λ b. front ++ (b ∷ [])) (ground (arith, p)),
                  sym here,
                  Shape-none front c.dot none_yet shape,
                  tt,
                )
                (ground (arith, e, d, p)))
        | inr p ↦
            let same : c ≡ c' = ground (arith, e, d, p) in
            rw (← same)
              (record { front = front; back = ch ∷ s; split = refl; at_end = here; shape = shape })
      ]
    ]

drop-point : (ws fs : Bytes) → drop (length ws + 1) (ws ++ (b'.' ∷ fs)) ≡ fs
drop-point [] fs = refl
drop-point (w ∷ ws) fs =
    let e : length (w ∷ ws) + 1 ≡ suc (length ws + 1) = omega arith in rw e (drop-point ws fs)

-- The two parts of a number that was scanned are digits.
parts-IsDigit :
    (t : Token) (dot : Option ℕ)
    → t.dot ≡ dot
    → Shape t.num dot
    → All IsDigit (whole_part t) × All IsDigit (frac_part t)
unfolding whole_part frac_part
parts-IsDigit t none e h = rw e (h, tt)
parts-IsDigit t (some j) e (ws, fs, n, l, hw, hf) = rw (e, n, ← l, take-append, drop-point) (hw, hf)

take-front :
    (s front back : Bytes) (n : ℕ) → s ≡ front ++ back → n ≡ length front → take n s ≡ front
take-front s front back n e l = rw (e, l) (take-append front back)

-- A number that was split off is the front of the text, up to where the scan ended.
cut_token-num :
    (s : Bytes) (c : Scan) {t : Token}
    → cut_token s c ≡ ok t
    → (take c.at s ≡ t.num) × (c.dot ≡ t.dot)
unfolding cut_token
cut_token-num s c e = elim (Bool-cases (c.digits_count == 0)) [
  | inl z ↦ absurd (ground (arith, e, z))
  | inr z ↦ (ground (arith, e, z), ground (arith, e, z))
]

split-Shape : (s : Bytes) {t : Token} → split_byte_size_token s ≡ ok t → Shape t.num t.dot
unfolding split_byte_size_token
split-Shape s {t} e = elim (Bool-cases (is_empty (trim_space s))) [
  | inl b ↦ absurd (ground (arith, e, b))
  | inr b ↦
      let (c, scan, rest) =
        >>=-eq-ok (scan_number (trim_space s) start_scan) (cut_token (trim_space s)) {out = t}
          (ground (arith, e, b)) in
      let g = scan_number-Scanned (trim_space s) [] start_scan refl tt scan in
      let (n, d) = cut_token-num (trim_space s) c rest in
      rw (← n, ← d, take-front (trim_space s) g.front g.back c.at g.split g.at_end) g.shape
]

-- The multipliers are positive, and a tebibyte is the largest.
abbrev multiplier_ok : Result SizeError ℕ → Bool
multiplier_ok (ok m) = ltb 0 m && leb m (2 ^ 40)
multiplier_ok (err x) = true
multiplier_ok panic = true

abbrev all_ok : List (Bytes × Result SizeError ℕ) → Bool
all_ok [] = true
all_ok ((k, m) ∷ cases) = multiplier_ok m && all_ok cases

switch-ok :
    (s : Bytes) (cases : List (Bytes × Result SizeError ℕ)) (d : Result SizeError ℕ)
    → all_ok cases ≡ true
    → multiplier_ok d ≡ true
    → multiplier_ok (switch s cases d) ≡ true
unfolding switch
switch-ok s [] d h k = k
switch-ok s ((key, m) ∷ cases) d h k =
    let first : multiplier_ok m ≡ true = ground (arith, h) in
    let rest : all_ok cases ≡ true = ground (arith, h) in
    elim (Bool-cases (bytes_eq s key)) [
      | inl e ↦ rw e first
      | inr e ↦ rw e (switch-ok s cases d rest k)
    ]

resolve_byte_multiplier-range :
    (unit : Bytes) (m : ℕ) → resolve_byte_multiplier unit ≡ ok m → (0 < m) × (m ≤ 2 ^ 40)
unfolding resolve_byte_multiplier
resolve_byte_multiplier-range unit m e =
    let inside : multiplier_ok (resolve_byte_multiplier unit) ≡ true =
      switch-ok unit _ _ refl refl in
    ground (arith, ap multiplier_ok e, inside)

-- A size is read exactly when it splits into a number and a known unit and the number's value in bytes is in
-- range: what is read is the value rounded to the nearest byte, halves up.
pub parse_byte_size_iff :
    (s : Bytes) (n : ℕ)
    → (parse_byte_size s ≡ ok n) ↔ (
        (t : Token) × (m : ℕ) × (split_byte_size_token s ≡ ok t)
        × (resolve_byte_multiplier t.unit ≡ ok m)
        × Reads m (whole_part t) (frac_part t) n)
unfolding parse_byte_size
parse_byte_size_iff s n =
    let parts : (t : Token) (m : ℕ)
        → split_byte_size_token s ≡ ok t
        → resolve_byte_multiplier t.unit ≡ ok m
        → (read_amount m (whole_part t) (frac_part t) ≡ ok n)
          ↔ Reads m (whole_part t) (frac_part t) n =
      λ t m e k.
        let (pos, small) = resolve_byte_multiplier-range t.unit m k in
        let (ws, fs) = parts-IsDigit t t.dot refl (split-Shape s e) in
        read_amount_iff m pos small (whole_part t) (frac_part t) n ws fs in
    (
      λ h.
          let (t, e, rest) = >>=-eq-ok (split_byte_size_token s) _ h in
          let (m, k, read) = >>=-eq-ok (resolve_byte_multiplier t.unit) _ rest in
          (t, m, e, k, (parts t m e k).0 read),
      λ (t, m, e, k, r). rw (e, k) ((parts t m e k).1 r),
    )
