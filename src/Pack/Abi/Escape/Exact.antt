-- ===== src/Pack/Abi/Escape/Exact.antt =====
-- Lemmas on the loops of `EscapeMetadata` and `EscapedMetadataLen`.
use microfat.Base.{
  ℕ, zero, suc, ◌-◌, ◌/◌, ◌%◌, ◌≤◌, ◌<◌, ◌≡◌, ◌≢◌, refl, ◌⊎◌, inl, inr, true, false, Bool-cases,
  ◌&&◌, [], ◌∷◌, ◌==◌, ltb, length, length-append, take, All, arith, All-append, if-cases,
}
use microfat.Text.{Bytes, codes}
use microfat.Words.{IsByte}
use microfat.Format.Unmarshal.Typed.{All-take}
use microfat.Pack.Abi.Escape.{
  Decoded, rune_error, between, second_low, second_high, decode_two, decode_three, decode_four,
  decode_rune, encode_rune, hex_digit, hex_escape, is_control, piece, piece_len, escape_from,
  len_from, escaped_metadata_len, escape_metadata, max_display_len,
}

-- A rune that was decoded: of one byte and no more than that, or as long as its encoding.
abbrev Fits : Decoded → Type 0
Fits d = (d.rune ≡ rune_error) × (d.size ≡ 1) ⊎ (length (encode_rune d.rune) ≡ d.size)

decode_two-Fits : (b : ℕ) (bs : Bytes) → 194 ≤ b → b ≤ 223 → Fits (decode_two b bs)
unfolding decode_two encode_rune
decode_two-Fits b [] h k = inl (refl, refl)
decode_two-Fits b (c ∷ bs) h k = ground arith

decode_three-Fits : (b : ℕ) (bs : Bytes) → 224 ≤ b → b ≤ 239 → Fits (decode_three b bs)
unfolding decode_three encode_rune second_low second_high
decode_three-Fits b [] h k = inl (refl, refl)
decode_three-Fits b (c ∷ []) h k = inl (refl, refl)
decode_three-Fits b (c ∷ d ∷ bs) h k = ground arith

decode_four-Fits : (b : ℕ) (bs : Bytes) → 240 ≤ b → b ≤ 244 → Fits (decode_four b bs)
unfolding decode_four encode_rune second_low second_high
decode_four-Fits b [] h k = inl (refl, refl)
decode_four-Fits b (c ∷ []) h k = inl (refl, refl)
decode_four-Fits b (c ∷ d ∷ []) h k = inl (refl, refl)
decode_four-Fits b (c ∷ d ∷ e ∷ bs) h k = ground arith

decode_one-Fits : (b : ℕ) → b < 128 → length (encode_rune b) ≡ 1
unfolding encode_rune
decode_one-Fits b h = ground arith

decode_rune-Fits : (b : ℕ) (bs : Bytes) → Fits (decode_rune b bs)
unfolding decode_rune
decode_rune-Fits b bs =
    if-cases Fits (ltb b 128) _ _ (λ h. inr (decode_one-Fits b (ground arith)))
      λ h.
        if-cases Fits (between 194 223 b) _ _
          (λ k. decode_two-Fits b bs (ground arith) (ground arith))
          λ k.
            if-cases Fits (between 224 239 b) _ _
              (λ l. decode_three-Fits b bs (ground arith) (ground arith))
              λ l.
                if-cases Fits (between 240 244 b) _ _
                  (λ m. decode_four-Fits b bs (ground arith) (ground arith)) λ m. inl (refl, refl)

length-hex_escape : (n : ℕ) → length (hex_escape n) ≡ 4
unfolding hex_escape
length-hex_escape n = refl

length-piece : (b : ℕ) (d : Decoded) → Fits d → length (piece b d) ≡ piece_len d
unfolding piece piece_len
length-piece b d fits = ground (arith, length-hex_escape b, length-hex_escape d.rune)

length-escape_from : (skip : ℕ) (bs : Bytes) → length (escape_from skip bs) ≡ len_from skip bs
unfolding escape_from len_from
length-escape_from skip [] = refl
length-escape_from (suc skip) (b ∷ bs) = length-escape_from skip bs
length-escape_from zero (b ∷ bs) =
    let d = decode_rune b bs in
    omega (
      arith,
      length-append (piece b d) (escape_from (d.size - 1) bs),
      length-piece b d (decode_rune-Fits b bs),
      length-escape_from (d.size - 1) bs,
    )

-- The count is exact.
pub length-escape_metadata : (s : Bytes) → length (escape_metadata s) ≡ (escaped_metadata_len s).0
unfolding escape_metadata escaped_metadata_len
length-escape_metadata s = elim (Bool-cases (ltb max_display_len (length s))) [
  | inl long ↦ rw long (
      omega (
        arith,
        length-append (escape_from 0 (take max_display_len s)) (codes "...[truncated]"),
        length-escape_from 0 (take max_display_len s),
      ))
  | inr short ↦ rw short (length-escape_from 0 s)
]

-- A byte that is no control character of ASCII.
abbrev pub IsPlain : ℕ → Type 0
IsPlain b = (32 ≤ b) × (b ≢ 127) × (b < 256)

hex_digit-IsPlain : (n : ℕ) → n < 16 → IsPlain (hex_digit n)
unfolding hex_digit
hex_digit-IsPlain n h = ground arith

hex_escape-IsPlain : (n : ℕ) → n < 256 → All IsPlain (hex_escape n)
unfolding hex_escape
hex_escape-IsPlain n h = (
  (omega arith, ground arith, omega arith),
  (
    (omega arith, ground arith, omega arith),
    (hex_digit-IsPlain (n / 16) (omega arith), (hex_digit-IsPlain (n % 16) (omega arith), tt)),
  ),
)

encode_rune-IsPlain : (r : ℕ) → r < 2097152 → is_control r ≡ false → All IsPlain (encode_rune r)
unfolding encode_rune is_control
encode_rune-IsPlain r small h = ground arith

abbrev Small : Decoded → Type 0
Small d = d.rune < 2097152

decode_two-Small : (b : ℕ) (bs : Bytes) → b < 256 → Small (decode_two b bs)
unfolding decode_two
decode_two-Small b [] h = omega arith
decode_two-Small b (c ∷ bs) h = ground arith

decode_three-Small : (b : ℕ) (bs : Bytes) → b < 240 → Small (decode_three b bs)
unfolding decode_three second_low second_high
decode_three-Small b [] h = omega arith
decode_three-Small b (c ∷ []) h = omega arith
decode_three-Small b (c ∷ d ∷ bs) h = ground arith

decode_four-Small : (b : ℕ) (bs : Bytes) → b < 245 → Small (decode_four b bs)
unfolding decode_four second_low second_high
decode_four-Small b [] h = omega arith
decode_four-Small b (c ∷ []) h = omega arith
decode_four-Small b (c ∷ d ∷ []) h = omega arith
decode_four-Small b (c ∷ d ∷ e ∷ bs) h = ground arith

decode_rune-Small : (b : ℕ) (bs : Bytes) → b < 256 → Small (decode_rune b bs)
unfolding decode_rune
decode_rune-Small b bs h =
    if-cases Small (ltb b 128) _ _ (λ i. omega arith)
      λ i.
        if-cases Small (between 194 223 b) _ _ (λ k. decode_two-Small b bs h)
          λ k.
            if-cases Small (between 224 239 b) _ _ (λ l. decode_three-Small b bs (ground arith))
              λ l.
                if-cases Small (between 240 244 b) _ _ (λ m. decode_four-Small b bs (ground arith))
                  λ m. omega arith

control_small : (r : ℕ) → is_control r ≡ true → r < 256
unfolding is_control
control_small r h = ground arith

piece-IsPlain : (b : ℕ) (d : Decoded) → b < 256 → d.rune < 2097152 → All IsPlain (piece b d)
unfolding piece
piece-IsPlain b d h k =
    if-cases (All IsPlain) (d.rune == rune_error && d.size == 1) _ _ (λ bad. hex_escape-IsPlain b h)
      λ good.
        if-cases (All IsPlain) (is_control d.rune) _ _
          (λ control. hex_escape-IsPlain d.rune (control_small d.rune control))
          λ plain. encode_rune-IsPlain d.rune k plain

escape_from-IsPlain : (skip : ℕ) (bs : Bytes) → All IsByte bs → All IsPlain (escape_from skip bs)
unfolding escape_from
escape_from-IsPlain skip [] h = tt
escape_from-IsPlain (suc skip) (b ∷ bs) (h, hs) = escape_from-IsPlain skip bs hs
escape_from-IsPlain zero (b ∷ bs) (h, hs) =
    All-append IsPlain _ _ (piece-IsPlain b (decode_rune b bs) h (decode_rune-Small b bs h))
      (escape_from-IsPlain _ bs hs)

plain : (b : ℕ) → between 32 126 b ≡ true → IsPlain b
plain b h = (ground arith, ground arith, ground arith)

marker-IsPlain : All IsPlain (codes "...[truncated]")
marker-IsPlain = (
  plain _ refl,
  (
    plain _ refl,
    (
      plain _ refl,
      (
        plain _ refl,
        (
          plain _ refl,
          (
            plain _ refl,
            (
              plain _ refl,
              (
                plain _ refl,
                (
                  plain _ refl,
                  (
                    plain _ refl,
                    (plain _ refl, (plain _ refl, (plain _ refl, (plain _ refl, tt)))),
                  ),
                ),
              ),
            ),
          ),
        ),
      ),
    ),
  ),
)

-- Whatever the bytes are, what is written consists of bytes that are no control character of ASCII, and is
-- as long as `EscapedMetadataLen` says.
pub escape_metadata-IsPlain :
    (s : Bytes)
    → All IsByte s
    → All IsPlain (escape_metadata s) × (length (escape_metadata s) ≡ (escaped_metadata_len s).0)
unfolding escape_metadata
escape_metadata-IsPlain s h = (
  if-cases (All IsPlain) (ltb max_display_len (length s)) _ _
      (λ long.
        All-append IsPlain _ _ (escape_from-IsPlain 0 _ (All-take max_display_len s h))
          (marker-IsPlain))
      (λ short. escape_from-IsPlain 0 s h),
  length-escape_metadata s,
)
