-- ===== src/Pack/Abi/Escape.antt =====
-- internal/pack/abi.go: `EscapeMetadata` and `EscapedMetadataLen`, with what they use of unicode/utf8. A
-- rune is a number.
pub mod Exact
use microfat.Base.{
  ℕ, zero, suc, ◌+◌, ◌-◌, ◌*◌, ◌/◌, ◌%◌, Bool, true, false, ◌&&◌, ◌||◌, List, [], ◌∷◌, ◌++◌, ◌==◌,
  ltb, leb, length, take, if◌then◌else◌,
}
use microfat.Text.{Bytes, codes}

-- `utf8.RuneError`
abbrev pub rune_error : ℕ
rune_error = 65533

pub record Decoded : Type 0 where
  pub rune : ℕ
  pub size : ℕ

abbrev pub invalid : Decoded
invalid = record { rune = rune_error; size = 1 }

abbrev pub between : ℕ → ℕ → ℕ → Bool
between low high b = leb low b && leb b high

-- The first byte says how many follow, and which second bytes there are: neither a longer form than
-- needed, nor a surrogate, nor a rune above the last.
unfoldable pub second_low : ℕ → ℕ
second_low b = if b == 224 then 160 else if b == 240 then 144 else 128

unfoldable pub second_high : ℕ → ℕ
second_high b = if b == 237 then 159 else if b == 244 then 143 else 191

unfoldable pub decode_two : ℕ → Bytes → Decoded
decode_two b [] = invalid
decode_two b (c ∷ _) =
    if between 128 191 c then record { rune = (b - 192) * 64 + (c - 128); size = 2 } else invalid

unfoldable pub decode_three : ℕ → Bytes → Decoded
unfolding second_low second_high
decode_three b (c ∷ d ∷ _) =
    if between (second_low b) (second_high b) c && between 128 191 d
    then record { rune = (b - 224) * 4096 + (c - 128) * 64 + (d - 128); size = 3 }
    else invalid
decode_three b _ = invalid

unfoldable pub decode_four : ℕ → Bytes → Decoded
unfolding second_low second_high
decode_four b (c ∷ d ∷ e ∷ _) =
    if between (second_low b) (second_high b) c && between 128 191 d && between 128 191 e
    then record {
      rune = (b - 240) * 262144 + (c - 128) * 4096 + (d - 128) * 64 + (e - 128);
      size = 4;
    }
    else invalid
decode_four b _ = invalid

-- `utf8.DecodeRuneInString` of a text that begins with `b`.
unfoldable pub decode_rune : ℕ → Bytes → Decoded
decode_rune b bs =
    if ltb b 128
    then record { rune = b; size = 1 }
    else if between 194 223 b
    then decode_two b bs
    else if between 224 239 b
    then decode_three b bs
    else if between 240 244 b
    then decode_four b bs
    else invalid

-- `WriteRune`
unfoldable pub encode_rune : ℕ → Bytes
encode_rune r =
    if ltb r 128
    then r ∷ []
    else if ltb r 2048
    then (192 + r / 64) ∷ (128 + r % 64) ∷ []
    else if ltb r 65536
    then (224 + r / 4096) ∷ (128 + r / 64 % 64) ∷ (128 + r % 64) ∷ []
    else (240 + r / 262144) ∷ (128 + r / 4096 % 64) ∷ (128 + r / 64 % 64) ∷ (128 + r % 64) ∷ []

unfoldable pub hex_digit : ℕ → ℕ
hex_digit n = if ltb n 10 then 48 + n else 87 + n

-- `\x%02x`, of a number below 256.
unfoldable pub hex_escape : ℕ → Bytes
hex_escape n = b'\\' ∷ b'x' ∷ hex_digit (n / 16) ∷ hex_digit (n % 16) ∷ []

unfoldable pub is_control : ℕ → Bool
is_control r = ltb r 32 || r == 127 || between 128 159 r

-- What the loop writes for a rune, and what it counts for it.
unfoldable pub piece : ℕ → Decoded → Bytes
piece b d =
    if d.rune == rune_error && d.size == 1
    then hex_escape b
    else if is_control d.rune
    then hex_escape d.rune
    else encode_rune d.rune

unfoldable pub piece_len : Decoded → ℕ
piece_len d =
    if d.rune == rune_error && d.size == 1 then 4 else if is_control d.rune then 4 else d.size

-- The loops: so many bytes belong to the rune before.
unfoldable pub escape_from : ℕ → Bytes → Bytes
escape_from skip [] = []
escape_from (suc skip) (b ∷ bs) = escape_from skip bs
escape_from zero (b ∷ bs) = let d = decode_rune b bs in piece b d ++ escape_from (d.size - 1) bs

unfoldable pub len_from : ℕ → Bytes → ℕ
len_from skip [] = 0
len_from (suc skip) (b ∷ bs) = len_from skip bs
len_from zero (b ∷ bs) = let d = decode_rune b bs in piece_len d + len_from (d.size - 1) bs

abbrev pub max_display_len : ℕ
max_display_len = 4096

unfoldable pub escaped_metadata_len : Bytes → ℕ × Bool
escaped_metadata_len s =
    if ltb max_display_len (length s)
    then (len_from 0 (take max_display_len s) + 14, true)
    else (len_from 0 s, false)

unfoldable pub escape_metadata : Bytes → Bytes
escape_metadata s =
    if ltb max_display_len (length s)
    then escape_from 0 (take max_display_len s) ++ codes "...[truncated]"
    else escape_from 0 s
