-- ===== src/Cgroup/ByteSize.antt =====
-- `ParseByteSize` of internal/cgroup/cgroup.go and its helpers. The numbers are `uint64`; a sum and a
-- product keep their wrap-around.
pub mod Whole
pub mod Frac
pub mod Exact
pub mod Amount
pub mod Parse
use microfat.Base.{
  ℕ, suc, ◌+◌, ◌-◌, ◌*◌, ◌/◌, ◌%◌, ◌^◌, Bool, true, false, not, ◌&&◌, ◌||◌, Option, none, some,
  List, [], ◌∷◌, ◌==◌, ltb, leb, take, drop, if◌then◌else◌,
}
use microfat.Words.{sub64}
use microfat.Text.{Bytes, codes, is_empty, to_lower, trim_space}
use microfat.Result.{Result, ok, err, ◌>>=◌, ◌>>◌, reject_if}
use microfat.Microarch.Level.{switch}

pub data SizeError : Type 0 where
  empty multiple_dots missing_digits unknown_unit too_large : SizeError

abbrev pub max_int64 : ℕ
max_int64 = 9223372036854775807

abbrev pub is_digit : ℕ → Bool
is_digit c = leb b'0' c && leb c b'9'

-- `i`, `digitsCount` and `dotIndex`.
pub record Scan : Type 0 where
  pub at : ℕ
  pub digits_count : ℕ
  pub dot : Option ℕ

abbrev pub is_some {ℓ} : {A : Type ℓ} → Option A → Bool
is_some none = false
is_some (some a) = true

-- The loop over the digits and the point; it ends at the first other byte.
unfoldable pub scan_number : Bytes → Scan → Result SizeError Scan
scan_number [] c = ok c
scan_number (ch ∷ s) c =
    let digit = scan_number s (record c { at = c.at + 1; digits_count = c.digits_count + 1 }) in
    let point = scan_number s (record c { at = c.at + 1; dot = some c.at }) in
    if is_digit ch
    then digit
    else if ch == b'.'
    then (if is_some c.dot then err multiple_dots else point)
    else ok c

-- `numStr`, `unitStr` and `dotIndex`.
pub record Token : Type 0 where
  pub num : Bytes
  pub unit : Bytes
  pub dot : Option ℕ

abbrev pub start_scan : Scan
start_scan = record { at = 0; digits_count = 0; dot = none }

-- What follows the loop.
unfoldable pub cut_token : Bytes → Scan → Result SizeError Token
cut_token trimmed c = do
  reject_if (c.digits_count == 0) missing_digits
  ok (record {
    num = take c.at trimmed;
    unit = to_lower (trim_space (drop c.at trimmed));
    dot = c.dot;
  })

unfoldable pub split_byte_size_token : Bytes → Result SizeError Token
split_byte_size_token s = do
  let trimmed = trim_space s
  reject_if (is_empty trimmed) empty
  c ← scan_number trimmed start_scan
  cut_token trimmed c

abbrev pub kibi : ℕ
kibi = 1024

abbrev pub mebi : ℕ
mebi = 1024 * kibi

abbrev pub gibi : ℕ
gibi = 1024 * mebi

abbrev pub tebi : ℕ
tebi = 1024 * gibi

unfoldable pub resolve_byte_multiplier : Bytes → Result SizeError ℕ
resolve_byte_multiplier unit =
    switch unit
      ((codes "", ok 1)
        ∷ (codes "b", ok 1)
        ∷ (codes "byte", ok 1)
        ∷ (codes "bytes", ok 1)
        ∷ (codes "k", ok kibi)
        ∷ (codes "kb", ok kibi)
        ∷ (codes "kib", ok kibi)
        ∷ (codes "m", ok mebi)
        ∷ (codes "mb", ok mebi)
        ∷ (codes "mib", ok mebi)
        ∷ (codes "g", ok gibi)
        ∷ (codes "gb", ok gibi)
        ∷ (codes "gib", ok gibi)
        ∷ (codes "t", ok tebi)
        ∷ (codes "tb", ok tebi)
        ∷ (codes "tib", ok tebi)
        ∷ [])
      (err unknown_unit)

-- `uint64(c - '0')` on a byte.
abbrev pub digit_of : ℕ → ℕ
digit_of c = (c + 256 - b'0') % 256

-- The loop over `wholeStr`.
unfoldable pub read_whole : ℕ → ℕ → Bytes → Result SizeError ℕ
read_whole max_whole whole [] = ok whole
read_whole max_whole whole (c ∷ s) =
    let d = digit_of c in
    let rest = read_whole max_whole ((whole * 10 + d) % 2 ^ 64) s in
    if ltb (max_whole / 10) whole || whole == max_whole / 10 && ltb (max_whole % 10) d
    then err too_large
    else rest

-- `fracCarry`, `firstFracDigit` and `hasNonzeroFrac`.
pub record Fraction : Type 0 where
  pub carry : ℕ
  pub first : ℕ
  pub has_nonzero : Bool

-- The loop over `fracStr`, from its last digit to its first.
unfoldable pub read_fraction : ℕ → Bytes → Fraction
read_fraction multiplier [] = record { carry = 0; first = 0; has_nonzero = false }
read_fraction multiplier (c ∷ s) =
    let f = read_fraction multiplier s in
    let v = (digit_of c * multiplier + f.carry) % 2 ^ 64 in
    record { carry = v / 10; first = v % 10; has_nonzero = f.has_nonzero || not (v % 10 == 0) }

-- What follows the loops: the sum, the rounding and their checks.
unfoldable pub add_fraction : ℕ → Fraction → Result SizeError ℕ
add_fraction whole_bytes f = do
  reject_if (ltb (sub64 max_int64 whole_bytes) f.carry) too_large
  let integral = (whole_bytes + f.carry) % 2 ^ 64
  reject_if (integral == max_int64 && f.has_nonzero) too_large
  let round = if leb 5 f.first then 1 else 0
  reject_if (ltb 0 round && leb max_int64 integral) too_large
  let rounded = if ltb 0 round then (integral + round) % 2 ^ 64 else integral
  reject_if (ltb max_int64 rounded) too_large
  ok rounded

-- The value of a number in its two parts, in units of `multiplier` bytes.
unfoldable pub read_amount : ℕ → Bytes → Bytes → Result SizeError ℕ
read_amount multiplier whole_str frac_str = do
  whole ← read_whole (max_int64 / multiplier) 0 whole_str
  add_fraction ((whole * multiplier) % 2 ^ 64) (read_fraction multiplier frac_str)

-- `wholeStr` and `fracStr`.
unfoldable pub whole_part : Token → Bytes
whole_part t = elim t.dot [ none ↦ t.num | some at ↦ take at t.num ]

unfoldable pub frac_part : Token → Bytes
frac_part t = elim t.dot [ none ↦ [] | some at ↦ drop (at + 1) t.num ]

unfoldable pub parse_byte_size : Bytes → Result SizeError ℕ
parse_byte_size s = do
  t ← split_byte_size_token s
  multiplier ← resolve_byte_multiplier t.unit
  read_amount multiplier (whole_part t) (frac_part t)
