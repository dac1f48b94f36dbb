-- ===== src/Format/Marshal.antt =====
-- `MarshalBinaryIndex` of internal/format/format.go: the size of the index is counted first, and
-- the fields are then written one after the other into a buffer of that size.
pub mod Layout
pub mod Exact
use microfat.Base.{
  ℕ, ◌+◌, ◌%◌, Bool, not, ◌||◌, ◌&&◌, List, [], ◌∷◌, ◌++◌, length, replicate, ltb, if◌then◌else◌,
}
use microfat.Text.{Bytes, is_empty}
use microfat.Result.{Result, ok, ◌>>=◌, ◌>>◌, reject_if}
use microfat.Words.{lt64, put_uint}
use microfat.Format.Types.{
  FormatError, VariantEntry, Index, field_limit, invalid_checksum, index_magic_v2, format_version2,
  default_compression_algorithm,
}
use microfat.Format.Checksum.{validate_checksum}
use microfat.Format.Buffer.{store, copy_at}

-- `comp := v.Compression; if comp == "" { comp = defaultCompressionAlgorithm }`
unfoldable pub compression_of : Bytes → Bytes
compression_of c = if is_empty c then default_compression_algorithm else c

-- `sha == "" || !ValidateChecksum(sha)`
abbrev pub lacks_checksum : Bytes → Bool
lacks_checksum sha = is_empty sha || not (validate_checksum sha)

-- One round of the loop that validates the variants and counts their bytes.
unfoldable pub variant_size : VariantEntry → Result FormatError ℕ
variant_size v = do
  let comp = compression_of v.compression
  reject_if (lacks_checksum v.sha256) invalid_checksum
  reject_if (ltb 255 (length v.level) || ltb 255 (length v.sha256) || ltb 255 (length comp))
      field_limit
  ok (1 + length v.level + 8 + 8 + 8 + 1 + length v.sha256 + 1 + length comp)

unfoldable pub total_size : ℕ → List VariantEntry → Result FormatError ℕ
total_size total [] = ok total
total_size total (v ∷ vs) = do n ← variant_size v; total_size (total + n) vs

-- The buffer and `offset`.
pub record Cursor : Type 0 where
  pub buf : Bytes
  pub offset : ℕ

-- `buf[offset] = b; offset++`, and `PutUintN(buf[offset:offset+n], v); offset += n`
unfoldable pub write_bytes : Bytes → Cursor → Result FormatError Cursor
write_bytes bs c = do
  buf ← store c.buf c.offset bs
  ok (record { buf = buf; offset = c.offset + length bs })

-- `copy(buf[offset:], s); offset += len(s)`
unfoldable pub write_copy : Bytes → Cursor → Result FormatError Cursor
write_copy s c = do
  buf ← copy_at c.buf c.offset s
  ok (record { buf = buf; offset = c.offset + length s })

-- A text behind its length in one byte, and behind its length in two.
unfoldable pub write_string8 : Bytes → Cursor → Result FormatError Cursor
write_string8 s c = do c ← write_bytes ((length s % 256) ∷ []) c; write_copy s c

unfoldable pub write_string16 : Bytes → Cursor → Result FormatError Cursor
write_string16 s c = do c ← write_bytes (put_uint 2 (length s)) c; write_copy s c

unfoldable pub write_variant : VariantEntry → Cursor → Result FormatError Cursor
write_variant v c = do
  c ← write_string8 v.level c
  c ← write_bytes (put_uint 8 v.offset) c
  c ← write_bytes (put_uint 8 v.compressed_size) c
  c ← write_bytes (put_uint 8 v.uncompressed_size) c
  c ← write_string8 v.sha256 c
  write_string8 (compression_of v.compression) c

unfoldable pub write_variants : List VariantEntry → Cursor → Result FormatError Cursor
write_variants [] c = ok c
write_variants (v ∷ vs) c = do c ← write_variant v c; write_variants vs c

-- The 34 bytes of fixed fields.
unfoldable pub write_header : Index → Cursor → Result FormatError Cursor
write_header idx c = do
  c ← write_bytes index_magic_v2 c
  c ← write_bytes (put_uint 2 format_version2) c
  c ← write_bytes (put_uint 8 idx.created_unix) c
  c ← write_bytes (put_uint 8 idx.dictionary_offset) c
  c ← write_bytes (put_uint 8 idx.dictionary_size) c
  write_bytes (put_uint 4 idx.dictionary_id) c

unfoldable pub write_index : Index → Cursor → Result FormatError Cursor
write_index idx c = do
  c ← write_header idx c
  c ← write_string8 idx.dictionary_sha256 c
  c ← write_string8 idx.target_os c
  c ← write_string8 idx.target_arch c
  c ← write_string16 idx.app_name c
  c ← write_bytes (put_uint 2 (length idx.variants)) c
  write_variants idx.variants c

-- `totalSize` without the variants.
unfoldable pub fixed_size : Index → ℕ
fixed_size idx =
    34
    + 1
    + length idx.dictionary_sha256
    + 1
    + length idx.target_os
    + 1
    + length idx.target_arch
    + 2
    + length idx.app_name
    + 2

-- The checks that come before the buffer is made, and its size.
unfoldable pub index_size : Index → Result FormatError ℕ
index_size idx = do
  reject_if
      (ltb 255 (length idx.target_os)
        || ltb 255 (length idx.target_arch)
        || ltb 65535 (length idx.app_name)
        || ltb 65535 (length idx.variants)
        || ltb 255 (length idx.dictionary_sha256))
      field_limit
  reject_if (lt64 0 idx.dictionary_size && lacks_checksum idx.dictionary_sha256) invalid_checksum
  total_size (fixed_size idx) idx.variants

unfoldable pub marshal_binary_index : Index → Result FormatError Bytes
marshal_binary_index idx = do
  total ← index_size idx
  c ← write_index idx (record { buf = replicate total 0; offset = 0 })
  ok c.buf
