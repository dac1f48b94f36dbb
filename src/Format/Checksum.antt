-- ===== src/Format/Checksum.antt =====
-- `ValidateChecksum` of internal/format/format.go.
use microfat.Base.{
  ℕ, ◌≡◌, refl, Bool, true, false, not, ◌&&◌, ◌||◌, [], ◌∷◌, arith, length, leb, ◌==◌,
  if◌then◌else◌,
}
use microfat.Text.{Bytes, lower_byte, to_lower}

-- `(c >= '0' && c <= '9') || (c >= 'a' && c <= 'f') || (c >= 'A' && c <= 'F')`
unfoldable pub is_hex_digit : ℕ → Bool
is_hex_digit c = leb b'0' c && leb c b'9' || leb b'a' c && leb c b'f' || leb b'A' c && leb c b'F'

unfoldable pub all_hex : Bytes → Bool
unfolding is_hex_digit
all_hex [] = true
all_hex (c ∷ s) = if not (is_hex_digit c) then false else all_hex s

unfoldable pub validate_checksum : Bytes → Bool
validate_checksum [] = true
validate_checksum (c ∷ s) = if not (length (c ∷ s) == 64) then false else all_hex (c ∷ s)

pub length-to_lower : (s : Bytes) → length (to_lower s) ≡ length s
unfolding to_lower
length-to_lower [] = refl
length-to_lower (c ∷ s) = omega (arith, length-to_lower s)

pub all_hex-to_lower : (s : Bytes) → all_hex (to_lower s) ≡ all_hex s
unfolding all_hex to_lower lower_byte
all_hex-to_lower [] = refl
all_hex-to_lower (c ∷ s) = ground (arith, all_hex-to_lower s)

-- The case of the digits does not matter.
pub validate_checksum-to_lower : (s : Bytes) → validate_checksum (to_lower s) ≡ validate_checksum s
unfolding validate_checksum to_lower
validate_checksum-to_lower [] = refl
validate_checksum-to_lower (c ∷ s) = cc (length-to_lower (c ∷ s), all_hex-to_lower (c ∷ s))
