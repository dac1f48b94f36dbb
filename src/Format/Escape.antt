-- ===== src/Format/Escape.antt =====
-- The escaping of texts for JSON: `EscapeJSONString` of internal/format/format.go.
use microfat.Base.{
  ℕ, zero, suc, ◌+◌, ◌*◌, ◌-◌, ◌/◌, ◌%◌, ◌<◌, ◌≡◌, ◌∙◌, ap, refl, Option, none, some, [], ◌∷◌, ◌++◌,
  arith, length, Bool-cases, inl, inr, true, ◌&&◌, ◌||◌, ◌==◌, ltb, leb, if◌then◌else◌,
}
use microfat.Text.{Bytes}

-- A digit of `%04x`.
unfoldable pub hex_digit : ℕ → ℕ
hex_digit n = if ltb n 10 then b'0' + n else b'a' + (n - 10)

unfoldable pub escape_byte : ℕ → Bytes
escape_byte c =
    if c == b'"'
    then b'\\' ∷ b'"' ∷ []
    else if c == b'\\'
    then b'\\' ∷ b'\\' ∷ []
    else if c == 8
    then b'\\' ∷ b'b' ∷ []
    else if c == 12
    then b'\\' ∷ b'f' ∷ []
    else if c == b'\n'
    then b'\\' ∷ b'n' ∷ []
    else if c == b'\r'
    then b'\\' ∷ b'r' ∷ []
    else if c == b'\t'
    then b'\\' ∷ b't' ∷ []
    else if ltb c 32
    then b'\\' ∷ b'u' ∷ b'0' ∷ b'0' ∷ hex_digit (c / 16) ∷ hex_digit (c % 16) ∷ []
    else c ∷ []

unfoldable pub escape_json_string : Bytes → Bytes
escape_json_string [] = []
escape_json_string (c ∷ s) = escape_byte c ++ escape_json_string s

-- A reader of the characters of a JSON string by RFC 8259, on bytes: a digit of `\u`, the character behind a
-- backslash, and a character. A quotation mark and a control character must not stand unescaped, and there are no
-- escapes but those of the standard. A code point beyond ASCII is not one byte, and is not read.
unfoldable pub digit_value : ℕ → Option ℕ
digit_value d =
    if leb b'0' d && leb d b'9'
    then some (d - b'0')
    else if leb b'a' d && leb d b'f'
    then some (d - b'a' + 10)
    else if leb b'A' d && leb d b'F'
    then some (d - b'A' + 10)
    else none

unfoldable pub short_escape : ℕ → Option ℕ
short_escape c =
    if c == b'"' || c == b'\\' || c == b'/'
    then some c
    else if c == b'b'
    then some 8
    else if c == b'f'
    then some 12
    else if c == b'n'
    then some b'\n'
    else if c == b'r'
    then some b'\r'
    else if c == b't'
    then some b'\t'
    else none

abbrev code_point : Option ℕ → Option ℕ → Option ℕ → Option ℕ → Option ℕ
code_point (some a) (some b) (some c) (some d) =
    if ltb (a * 4096 + b * 256 + c * 16 + d) 128
    then some (a * 4096 + b * 256 + c * 16 + d)
    else none
code_point _ _ _ _ = none

abbrev before : Bytes → Option ℕ → Option (ℕ × Bytes)
before s none = none
before s (some c) = some (c, s)

unfoldable pub read_unicode : Bytes → Option (ℕ × Bytes)
read_unicode (d ∷ e ∷ f ∷ g ∷ s) =
    before s (code_point (digit_value d) (digit_value e) (digit_value f) (digit_value g))
read_unicode _ = none

unfoldable pub read_escape : Bytes → Option (ℕ × Bytes)
read_escape [] = none
read_escape (c ∷ s) = if c == b'u' then read_unicode s else before s (short_escape c)

unfoldable pub read_char : Bytes → Option (ℕ × Bytes)
read_char [] = none
read_char (c ∷ s) =
    if c == b'\\' then read_escape s else if c == b'"' || ltb c 32 then none else some (c, s)

abbrev pub onto : ℕ → Option Bytes → Option Bytes
onto c none = none
onto c (some s) = some (c ∷ s)

abbrev pub and_then : (Bytes → Option Bytes) → Option (ℕ × Bytes) → Option Bytes
and_then next none = none
and_then next (some (c, s)) = onto c (next s)

-- A text of n characters.
unfoldable pub read_chars : ℕ → Bytes → Option Bytes
read_chars zero [] = some []
read_chars zero (c ∷ s) = none
read_chars (suc n) s = and_then (read_chars n) (read_char s)

hex_digit-value : (n : ℕ) → n < 16 → digit_value (hex_digit n) ≡ some n
unfolding digit_value hex_digit
hex_digit-value n h = ground arith

-- The escape of a control character that has no short one.
read-control :
    (c : ℕ) (s : Bytes)
    → c < 32
    → read_unicode (b'0' ∷ b'0' ∷ hex_digit (c / 16) ∷ hex_digit (c % 16) ∷ s) ≡ some (c, s)
unfolding read_unicode
read-control c s h =
    let zero_value : digit_value b'0' ≡ some 0 = unfold digit_value in refl in
    let high = hex_digit-value (c / 16) (omega (arith, h)) in
    let low = hex_digit-value (c % 16) (omega arith) in
    let ascii : ltb (0 * 4096 + 0 * 256 + c / 16 * 16 + c % 16) 128 ≡ true = ground arith in
    let whole : 0 * 4096 + 0 * 256 + c / 16 * 16 + c % 16 ≡ c = omega arith in
    rw (zero_value, high, low, ascii, whole) refl

read-escape_byte : (c : ℕ) (s : Bytes) → read_char (escape_byte c ++ s) ≡ some (c, s)
unfolding read_char escape_byte read_escape short_escape
read-escape_byte c s = elim (Bool-cases (ltb c 32)) [
  | inl e ↦ let u = read-control c s (ground (arith, e)) in ground (arith, e, u)
  | inr e ↦ ground (arith, e)
]

-- Reading an escaped text back as the characters of a JSON string gives the text: every quotation mark, backslash and
-- control character is escaped, no character is lost or changed, and no escape is read as another.
pub unescape-escape_json_string :
    (s : Bytes) → read_chars (length s) (escape_json_string s) ≡ some s
unfolding read_chars escape_json_string
unescape-escape_json_string [] = refl
unescape-escape_json_string (c ∷ s) =
    ap (and_then (read_chars (length s))) (read-escape_byte c (escape_json_string s))
    ∙ ap (onto c) (unescape-escape_json_string s)
