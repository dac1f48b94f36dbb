-- ===== src/Format/Unmarshal/Total.antt =====
-- The decoder on any bytes: it returns, and never indexes or slices out of range.
use microfat.Base.{
  ℕ, zero, suc, ◌+◌, ◌≤◌, ◌<◌, ◌≡◌, true, false, List, [], ◌∷◌, ◌++◌, arith, length, leb, ltb,
}
use microfat.Text.{Bytes}
use microfat.Result.{Returns, Returns-ok, Returns-eq_ok, Returns-bind, Returns-guard}
use microfat.Format.Types.{FormatError, VariantEntry}
use microfat.Format.Buffer.{index, slice}
use microfat.Format.Buffer.Reading.{index-in_range, slice-in_range}
use microfat.Format.Unmarshal.{
  read_string8, read_string16, uint_at, decode_binary_variant, decode_variants, read_header,
  read_count, unmarshal_binary_index,
}

index-Returns : (buf : Bytes) (i : ℕ) → i < length buf → Returns (index {E = FormatError} buf i)
index-Returns buf i h = let (b, e) = index-in_range {E = FormatError} buf i h in Returns-eq_ok _ b e

slice-Returns :
    (buf : Bytes) (i j : ℕ) → i ≤ j → j ≤ length buf → Returns (slice {E = FormatError} buf i j)
slice-Returns buf i j h k = Returns-eq_ok _ _ (slice-in_range buf i j h k)

-- Behind the guards of the code, in the form of their tests.
index-guarded :
    (buf : Bytes) (at : ℕ) → leb (length buf) at ≡ false → Returns (index {E = FormatError} buf at)
index-guarded buf at g = index-Returns buf at (ground arith)

slice-guarded :
    (buf : Bytes) (i n : ℕ)
    → ltb (length buf) (i + n) ≡ false
    → Returns (slice {E = FormatError} buf i (i + n))
slice-guarded buf i n g = slice-Returns buf i (i + n) (omega arith) (ground arith)

uint_at-Returns : (buf : Bytes) (at n : ℕ) → at + n ≤ length buf → Returns (uint_at buf at n)
unfolding uint_at
uint_at-Returns buf at n h =
    Returns-bind _ _ (slice-Returns buf at (at + n) (omega arith) h) (λ s e. Returns-ok _)

uint_at-guarded :
    (buf : Bytes) (at n : ℕ) → ltb (length buf) (at + n) ≡ false → Returns (uint_at buf at n)
uint_at-guarded buf at n g = uint_at-Returns buf at n (ground arith)

ruleset returns_rules = (Returns-bind, Returns-guard, Returns-ok, index-guarded, slice-guarded)

read_string8-Returns : (buf : Bytes) (at : ℕ) → Returns (read_string8 buf at)
unfolding read_string8
read_string8-Returns buf at = search returns_rules depth 12

read_string16-Returns : (buf : Bytes) (at : ℕ) → Returns (read_string16 buf at)
unfolding read_string16
read_string16-Returns buf at = search returns_rules depth 12

read_count-Returns : (buf : Bytes) (at : ℕ) → Returns (read_count buf at)
unfolding read_count
read_count-Returns buf at = search (returns_rules, uint_at-guarded) depth 12

module _ (buf : Bytes) (at : ℕ) (g : ltb (length buf) (at + 24) ≡ false) where
  number0-guarded : Returns (uint_at buf at 8)
  number0-guarded = uint_at-Returns buf at 8 (ground arith)

  number8-guarded : Returns (uint_at buf (at + 8) 8)
  number8-guarded = uint_at-Returns buf (at + 8) 8 (ground arith)

  number16-guarded : Returns (uint_at buf (at + 16) 8)
  number16-guarded = uint_at-Returns buf (at + 16) 8 (ground arith)

decode_binary_variant-Returns : (buf : Bytes) (at : ℕ) → Returns (decode_binary_variant buf at)
unfolding decode_binary_variant
decode_binary_variant-Returns buf at =
    search (returns_rules, read_string8-Returns, number0-guarded, number8-guarded, number16-guarded)
      depth 20

decode_variants-Returns :
    (n : ℕ) (buf : Bytes) (at : ℕ) (out : List VariantEntry)
    → Returns (decode_variants n buf at out)
unfolding decode_variants
decode_variants-Returns zero buf at out = Returns-ok out
decode_variants-Returns (suc n) buf at out =
    Returns-bind _ _ (decode_binary_variant-Returns buf at)
      λ (v, at) e. decode_variants-Returns n buf at (out ++ (v ∷ []))

module _ (buf : Bytes) (g : ltb (length buf) 34 ≡ false) where
  magic-guarded : Returns (slice {E = FormatError} buf 0 4)
  magic-guarded = slice-Returns buf 0 4 (omega arith) (ground arith)

  header-guarded : (at n : ℕ) → leb (at + n) 34 ≡ true → Returns (uint_at buf at n)
  header-guarded at n h = uint_at-Returns buf at n (ground arith)

read_header-Returns : (buf : Bytes) → Returns (read_header buf)
unfolding read_header
read_header-Returns buf = search (returns_rules, magic-guarded, header-guarded) depth 20

-- The decoder returns an index or an error on every input: no index or slice expression in it is
-- ever out of range, however the data are cut or corrupted.
pub unmarshal-Returns : (buf : Bytes) → Returns (unmarshal_binary_index buf)
unfolding unmarshal_binary_index
unmarshal-Returns buf =
    search
      (
        returns_rules, read_header-Returns, read_string8-Returns, read_string16-Returns,
        read_count-Returns, decode_variants-Returns,
      )
      depth 20
