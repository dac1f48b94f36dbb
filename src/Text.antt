-- ===== src/Text.antt =====
-- Go strings as lists of bytes, and what the program uses of package strings. `to_lower`,
-- `equal_fold` and `trim_space` are those of Go on ASCII text: bytes from 128 on are kept as they
-- are, where Go also reads the UTF-8 letters and spaces beyond ASCII.
pub mod Laws
pub mod Number
use Prim.Native.Char.{code}
use Prim.Native.String.{String}
use microfat.Base.{
  suc, Option, none, some, ℕ, ◌+◌, Bool, true, false, not, ◌&&◌, ◌||◌, List, [], ◌∷◌, ◌++◌, map,
  leb, ◌==◌, if◌then◌else◌,
}

abbrev pub Bytes : Type 0
Bytes = List ℕ

-- The bytes of an ASCII literal.
abbrev pub codes : String → Bytes
codes String.[] = []
codes (String.◌∷◌ c s) = code c ∷ codes s

-- `a == b` on strings.
unfoldable pub bytes_eq : Bytes → Bytes → Bool
bytes_eq [] [] = true
bytes_eq (a ∷ s) (b ∷ t) = a == b && bytes_eq s t
bytes_eq _ _ = false

abbrev pub is_empty : Bytes → Bool
is_empty [] = true
is_empty (c ∷ s) = false

-- A letter of unicode.ToLower, and strings.ToLower.
unfoldable pub lower_byte : ℕ → ℕ
lower_byte c = if leb b'A' c && leb c b'Z' then c + 32 else c

unfoldable pub to_lower : Bytes → Bytes
unfolding lower_byte
to_lower = map lower_byte

unfoldable pub equal_fold : Bytes → Bytes → Bool
unfolding bytes_eq to_lower
equal_fold a b = bytes_eq (to_lower a) (to_lower b)

-- `'\t', '\n', '\v', '\f', '\r', ' '`
abbrev pub is_space : ℕ → Bool
is_space c = leb 9 c && leb c 13 || c == 32

unfoldable pub trim_left : Bytes → Bytes
trim_left [] = []
trim_left (c ∷ s) = let rest = trim_left s in if is_space c then rest else c ∷ s

unfoldable pub trim_right : Bytes → Bytes
trim_right [] = []
trim_right (c ∷ s) = let rest = trim_right s in if is_space c && is_empty rest then [] else c ∷ rest

unfoldable pub trim_space : Bytes → Bytes
unfolding trim_left trim_right
trim_space s = trim_right (trim_left s)

unfoldable pub has_prefix : Bytes → Bytes → Bool
has_prefix s [] = true
has_prefix [] (p ∷ ps) = false
has_prefix (c ∷ s) (p ∷ ps) = c == p && has_prefix s ps

-- The text behind a prefix that it has.
unfoldable pub skip : Bytes → Bytes → Bytes
skip s [] = s
skip [] (p ∷ ps) = []
skip (c ∷ s) (p ∷ ps) = skip s ps

unfoldable pub trim_prefix : Bytes → Bytes → Bytes
unfolding has_prefix skip
trim_prefix s p = if has_prefix s p then skip s p else s

-- `bytes.IndexByte`
unfoldable pub index_byte : Bytes → ℕ → Option ℕ
index_byte [] c = none
index_byte (b ∷ s) c =
    let rest = index_byte s c in
    if b == c then some 0 else elim rest [ none ↦ none | some i ↦ some (suc i) ]
