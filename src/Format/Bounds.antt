-- ===== src/Format/Bounds.antt =====
-- `ValidateBounds` of internal/format/format.go, with its two parts.
pub mod Safe
pub mod Sound
pub mod Complete
pub mod Canonical
use microfat.Base.{
  ℕ, zero, suc, ◌+◌, Bool, true, false, not, ◌&&◌, ◌||◌, List, [], ◌∷◌, ltb, leb, ◌==◌,
  if◌then◌else◌,
}
use microfat.Base.Int.{pos, lez}
use microfat.Text.{Bytes, codes, bytes_eq, is_empty, to_lower, trim_space}
use microfat.Result.{Result, ok, err, ◌>>=◌, ◌>>◌, reject_if}
use microfat.Words.{is_neg, lt64, le64, add64, sub64}
use microfat.Microarch.Level.{normalize, rank}
use microfat.Format.Types.{
  FormatError, VariantEntry, Index, unsupported_version, out_of_bounds, no_variants_specified,
  invalid_variant, invalid_dictionary, invalid_checksum, duplicate_variant, payload_too_large,
  overlapping_variant, format_version1, format_version2, max_dictionary_size, max_payload_size,
}
use microfat.Format.Marshal.{lacks_checksum}

-- `_, exists := seen[level]`
unfoldable pub contains : List Bytes → Bytes → Bool
contains [] s = false
contains (t ∷ ts) s = bytes_eq t s || contains ts s

-- `validateDictionaryBounds`: the offset at which the dictionary ends, or 0.
unfoldable pub validate_dictionary_bounds : Index → ℕ → Result FormatError ℕ
validate_dictionary_bounds idx index_offset = do
  reject_if (is_neg idx.dictionary_size || lt64 max_dictionary_size idx.dictionary_size)
      invalid_dictionary
  if idx.dictionary_size == 0 then ok 0 else do
    reject_if (is_neg idx.dictionary_offset) invalid_dictionary
    reject_if (lacks_checksum idx.dictionary_sha256) invalid_checksum
    reject_if
        (lt64 index_offset idx.dictionary_offset
          || lt64 (sub64 index_offset idx.dictionary_offset) idx.dictionary_size)
        out_of_bounds
    ok (add64 idx.dictionary_offset idx.dictionary_size)

-- One round of `validateVariantBounds`. `bounded` is `i > 0 || idx.DictionarySize > 0`; the result is
-- the new `lastEnd`.
unfoldable pub validate_variant :
    Bytes → ℕ → List Bytes → Bool → ℕ → VariantEntry → Result FormatError ℕ
validate_variant arch index_offset seen bounded last_end v = do
  let norm_level = normalize v.level
  reject_if (is_empty (trim_space v.level)) invalid_variant
  reject_if (lez (rank arch norm_level) (pos 0)) invalid_variant
  reject_if (contains seen norm_level) duplicate_variant
  reject_if (is_neg v.offset || le64 v.compressed_size 0 || le64 v.uncompressed_size 0)
      out_of_bounds
  reject_if (lt64 max_payload_size v.uncompressed_size) payload_too_large
  reject_if (lt64 index_offset v.offset || lt64 (sub64 index_offset v.offset) v.compressed_size)
      out_of_bounds
  reject_if (bounded && lt64 v.offset last_end) overlapping_variant
  reject_if (lacks_checksum v.sha256) invalid_checksum
  ok (add64 v.offset v.compressed_size)

-- The loop of `validateVariantBounds`, from the i-th variant on.
unfoldable pub validate_variants :
    Index → ℕ → ℕ → List Bytes → ℕ → List VariantEntry → Result FormatError Unit
validate_variants idx index_offset i seen last_end [] = ok tt
validate_variants idx index_offset i seen last_end (v ∷ vs) = do
  end ←
      validate_variant idx.target_arch index_offset seen (ltb 0 i || lt64 0 idx.dictionary_size)
        last_end v
  validate_variants idx index_offset (suc i) (normalize v.level ∷ seen) end vs

-- `targetArch != "amd64" && targetArch != "arm64"`
unfoldable pub is_unknown_arch : Bytes → Bool
is_unknown_arch arch =
    let a = to_lower (trim_space arch) in
    not (bytes_eq a (codes "amd64")) && not (bytes_eq a (codes "arm64"))

unfoldable pub no_variants : List VariantEntry → Bool
no_variants [] = true
no_variants (v ∷ vs) = false

unfoldable pub validate_bounds : Index → ℕ → Result FormatError Unit
validate_bounds idx index_offset = do
  reject_if (idx.version == format_version1) unsupported_version
  reject_if (not (idx.version == format_version2)) unsupported_version
  reject_if (is_neg index_offset) out_of_bounds
  reject_if (no_variants idx.variants) no_variants_specified
  reject_if (is_unknown_arch idx.target_arch) invalid_variant
  last_end ← validate_dictionary_bounds idx index_offset
  validate_variants idx index_offset 0 [] last_end idx.variants
