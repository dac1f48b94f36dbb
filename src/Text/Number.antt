-- ===== src/Text/Number.antt =====
-- Decimal numbers of package strconv, and the suffixes of package strings.
pub mod Range
pub mod Print
use microfat.Base.{
  ℕ, zero, suc, ◌+◌, ◌-◌, ◌*◌, ◌/◌, ◌%◌, ◌^◌, Bool, true, false, not, ◌&&◌, ◌||◌, Option, none,
  some, List, [], ◌∷◌, ◌++◌, ltb, leb, ◌==◌, length, take, drop, if◌then◌else◌,
}
use microfat.Text.{Bytes, bytes_eq, is_empty}
use microfat.Words.{is_neg}

-- The digits of a number, in front of a text. Twenty digits are enough for 64 bits.
unfoldable pub digits_onto : ℕ → ℕ → Bytes → Bytes
digits_onto zero n s = s
digits_onto (suc fuel) n s =
    let onto = (b'0' + n % 10) ∷ s in
    let rest = digits_onto fuel (n / 10) onto in if n / 10 == 0 then onto else rest

-- `Itoa`, and the verb `%d` of package fmt.
unfoldable pub itoa : ℕ → Bytes
itoa n = if is_neg n then b'-' ∷ digits_onto 20 (2 ^ 64 - n) [] else digits_onto 20 n []

-- The value of digits, behind a value that was read.
unfoldable pub digits_value : ℕ → Bytes → Option ℕ
digits_value acc [] = some acc
digits_value acc (c ∷ s) =
    let rest = digits_value (acc * 10 + (c - b'0')) s in
    if leb b'0' c && leb c b'9' then rest else none

abbrev in_range : ℕ → Option ℕ → Option ℕ
in_range bound none = none
in_range bound (some n) = if leb n bound then some n else none

abbrev negated : Option ℕ → Option ℕ
negated none = none
negated (some n) = some ((2 ^ 64 - n) % 2 ^ 64)

-- `ParseInt(s, 10, 64)` where its error is nil: a sign or none, digits, and a value in range.
unfoldable pub parse_int : Bytes → Option ℕ
parse_int [] = none
parse_int (c ∷ s) =
    if c == b'-'
    then if is_empty s then none else negated (in_range (2 ^ 63) (digits_value 0 s))
    else if c == b'+'
    then if is_empty s then none else in_range (2 ^ 63 - 1) (digits_value 0 s)
    else in_range (2 ^ 63 - 1) (digits_value 0 (c ∷ s))

unfoldable pub has_suffix : Bytes → Bytes → Bool
has_suffix s p = leb (length p) (length s) && bytes_eq (drop (length s - length p) s) p

unfoldable pub trim_suffix : Bytes → Bytes → Bytes
trim_suffix s p = if has_suffix s p then take (length s - length p) s else s
