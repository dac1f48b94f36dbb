-- ===== src/Format/Unmarshal/Fields.antt =====
-- What the decoder reads from the layout of a field and of a variant.
use mathlib.Core.Path.{subst}
use microfat.Base.{
  ℕ, ◌+◌, ◌%◌, ◌^◌, ◌<◌, ◌≡◌, refl, false, [], ◌∷◌, ◌++◌, append_assoc, arith, length,
  length-append,
}
use microfat.Text.{Bytes, to_lower}
use microfat.Result.{ok}
use microfat.Words.{IsInt64, put_uint, length-put_uint, get_uint-put_uint}
use microfat.Format.Types.{FormatError, VariantEntry}
use microfat.Format.Buffer.Reading.{At, At-step, length-At, index-At, slice-At}
use microfat.Format.Marshal.{compression_of, lacks_checksum}
use microfat.Format.Marshal.Layout.{
  string8, string16, variant_layout, length-string8, length-string16,
}
use microfat.Format.Unmarshal.{
  read_string8, read_string16, uint_at, decode_binary_variant, read_count,
}

module _ {buf : Bytes} where
  pub At-to : {a b : ℕ} {rest : Bytes} → a ≡ b → At buf a rest → At buf b rest
  At-to {rest} e h = subst (λ n. At buf n rest) e h

  pub At-uint :
      {at : ℕ} (n v : ℕ) (rest : Bytes) → At buf at (put_uint n v ++ rest) → At buf (at + n) rest
  At-uint n v rest h = At-to (omega (arith, length-put_uint n v)) (At-step (put_uint n v) rest h)

  pub At-string8 :
      {at : ℕ} (s rest : Bytes) → At buf at (string8 s ++ rest) → At buf (at + 1 + length s) rest
  At-string8 s rest h = At-to (omega (arith, length-string8 s)) (At-step (string8 s) rest h)

  pub At-string16 :
      {at : ℕ} (s rest : Bytes) → At buf at (string16 s ++ rest) → At buf (at + 2 + length s) rest
  At-string16 s rest h = At-to (omega (arith, length-string16 s)) (At-step (string16 s) rest h)

module _ {buf : Bytes} {at : ℕ} (rest : Bytes) where
  pub read_string8-At :
      (s : Bytes)
      → length s < 256
      → At buf at (string8 s ++ rest)
      → read_string8 buf at ≡ ok (s, at + 1 + length s)
  unfolding read_string8 string8
  read_string8-At s fits h =
      let n : length s % 256 ≡ length s = omega arith in
      let h' = At-step ((length s % 256) ∷ []) (s ++ rest) h in
      ground (
        arith,
        n,
        length-At _ h,
        length-append s rest,
        index-At {E = FormatError} (length s % 256) (s ++ rest) h,
        slice-At {E = FormatError} s rest h',
      )

  pub uint_at-At :
      (n v : ℕ) → v < 256 ^ n → At buf at (put_uint n v ++ rest) → uint_at buf at n ≡ ok v
  unfolding uint_at
  uint_at-At n v fits h = ground (
    arith,
    slice-At {E = FormatError} (put_uint n v) rest h,
    length-put_uint n v,
    get_uint-put_uint n v fits,
  )

  pub read_string16-At :
      (s : Bytes)
      → length s < 65536
      → At buf at (string16 s ++ rest)
      → read_string16 buf at ≡ ok (s, at + 2 + length s)
  unfolding read_string16 string16
  read_string16-At s fits h =
      let field = put_uint 2 (length s) in
      let h₁ = rw (append_assoc field s rest) at h in
      let h₂ = At-uint 2 (length s) (s ++ rest) h₁ in
      ground (
        arith,
        length-At _ h₁,
        length-append field (s ++ rest),
        length-append s rest,
        length-put_uint 2 (length s),
        get_uint-put_uint 2 (length s) (omega arith),
        slice-At {E = FormatError} field (s ++ rest) h₁,
        slice-At {E = FormatError} s rest h₂,
      )

  pub read_count-At :
      (n : ℕ) → n < 65536 → At buf at (put_uint 2 n ++ rest) → read_count buf at ≡ ok (n, at + 2)
  unfolding read_count
  read_count-At n fits h = ground (
    arith,
    uint_at-At 2 n (omega arith) h,
    length-At _ h,
    length-append (put_uint 2 n) rest,
    length-put_uint 2 n,
  )

-- A variant that the wire format can hold, and what is read back of it.
pub record VariantFits (v : VariantEntry) : Type 0 where
  pub level_fits : length v.level < 256
  pub sha_fits : length v.sha256 < 256
  pub compression_fits : length (compression_of v.compression) < 256
  pub has_checksum : lacks_checksum v.sha256 ≡ false
  pub offset_fits : IsInt64 v.offset
  pub compressed_fits : IsInt64 v.compressed_size
  pub uncompressed_fits : IsInt64 v.uncompressed_size

unfoldable pub canonical_variant : VariantEntry → VariantEntry
canonical_variant v = record v {
  sha256 = to_lower v.sha256;
  compression = compression_of v.compression;
}

compression_of_idem : (c : Bytes) → compression_of (compression_of c) ≡ compression_of c
unfolding compression_of
compression_of_idem [] = refl
compression_of_idem (b ∷ c) = refl

length-variant :
    (v : VariantEntry)
    → length (variant_layout v)
      ≡ 27 + length v.level + length v.sha256 + length (compression_of v.compression)
unfolding variant_layout
length-variant v = grind (arith, length-append, length-put_uint, length-string8)

split-variant :
    (v : VariantEntry) (rest : Bytes)
    → variant_layout v ++ rest
      ≡ string8 v.level
        ++ (put_uint 8 v.offset
            ++ (put_uint 8 v.compressed_size
                ++ (put_uint 8 v.uncompressed_size
                    ++ (string8 v.sha256 ++ (string8 (compression_of v.compression) ++ rest)))))
unfolding variant_layout
split-variant v rest = simp append_assoc

pub decode_variant-At :
    {buf : Bytes} {at : ℕ} (v : VariantEntry) (rest : Bytes)
    → VariantFits v
    → At buf at (variant_layout v ++ rest)
    → decode_binary_variant buf at ≡ ok (canonical_variant v, at + length (variant_layout v))
unfolding decode_binary_variant canonical_variant
decode_variant-At {at} v rest fits h =
    let h₀ = rw split-variant at h in
    let h₁ = At-string8 v.level _ h₀ in
    let p = at + 1 + length v.level in
    let h₂ = At-uint 8 v.offset _ h₁ in
    let h₃ = At-to {b = p + 16} (omega arith) (At-uint 8 v.compressed_size _ h₂) in
    let h₄ = At-to {b = p + 24} (omega arith) (At-uint 8 v.uncompressed_size _ h₃) in
    let h₅ = At-string8 v.sha256 _ h₄ in
    ground (
      arith,
      length-variant v,
      length-At _ h₄,
      read_string8-At _ v.level fits.level_fits h₀,
      uint_at-At _ 8 v.offset fits.offset_fits h₁,
      uint_at-At _ 8 v.compressed_size fits.compressed_fits h₂,
      uint_at-At _ 8 v.uncompressed_size fits.uncompressed_fits h₃,
      read_string8-At _ v.sha256 fits.sha_fits h₄,
      fits.has_checksum,
      read_string8-At rest (compression_of v.compression) fits.compression_fits h₅,
      compression_of_idem v.compression,
    )
