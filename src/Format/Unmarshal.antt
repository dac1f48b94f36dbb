-- ===== src/Format/Unmarshal.antt =====
-- `UnmarshalBinaryIndex` and `decodeBinaryVariant` of internal/format/format.go: the fields are read
-- at a moving offset, and every read is guarded by the length of the data.
pub mod Total
pub mod Fields
pub mod Typed
pub mod RoundTrip
use microfat.Base.{
  ℕ, zero, suc, ◌+◌, not, ◌&&◌, List, [], ◌∷◌, ◌++◌, length, ltb, leb, ◌==◌, if◌then◌else◌,
}
use microfat.Text.{Bytes, bytes_eq, to_lower}
use microfat.Result.{Result, ok, ◌>>=◌, ◌>>◌, reject_if}
use microfat.Words.{lt64, get_uint}
use microfat.Format.Types.{
  FormatError, VariantEntry, Index, truncated_index, invalid_magic, unsupported_version,
  invalid_checksum, index_magic_v2, format_version2,
}
use microfat.Format.Buffer.{index, slice}
use microfat.Format.Marshal.{compression_of, lacks_checksum}

-- What was read, and the offset behind it.
abbrev pub Read : Type 0 → Type 0
Read A = Result FormatError (A × ℕ)

-- A text behind its length in one byte, and behind its length in two.
unfoldable pub read_string8 : Bytes → ℕ → Read Bytes
read_string8 buf at = do
  reject_if (leb (length buf) at) truncated_index
  n ← index buf at
  reject_if (ltb (length buf) (at + 1 + n)) truncated_index
  s ← slice buf (at + 1) (at + 1 + n)
  ok (s, at + 1 + n)

unfoldable pub read_string16 : Bytes → ℕ → Read Bytes
read_string16 buf at = do
  reject_if (ltb (length buf) (at + 2)) truncated_index
  field ← slice buf at (at + 2)
  let n = get_uint field
  reject_if (ltb (length buf) (at + 2 + n)) truncated_index
  s ← slice buf (at + 2) (at + 2 + n)
  ok (s, at + 2 + n)

-- `binary.LittleEndian.UintN(data[at:at+n])`
unfoldable pub uint_at : Bytes → ℕ → ℕ → Result FormatError ℕ
uint_at buf at n = do field ← slice buf at (at + n); ok (get_uint field)

unfoldable pub decode_binary_variant : Bytes → ℕ → Read VariantEntry
decode_binary_variant buf at = do
  (level, at) ← read_string8 buf at
  reject_if (ltb (length buf) (at + 24)) truncated_index
  v_offset ← uint_at buf at 8
  comp_size ← uint_at buf (at + 8) 8
  uncomp_size ← uint_at buf (at + 16) 8
  (sha, at) ← read_string8 buf (at + 24)
  reject_if (lacks_checksum sha) invalid_checksum
  (comp, at) ← read_string8 buf at
  ok (
    record {
      level = level;
      offset = v_offset;
      compressed_size = comp_size;
      uncompressed_size = uncomp_size;
      sha256 = to_lower sha;
      compression = compression_of comp;
    },
    at,
  )

-- The rounds of `for i := range variantCount` that are left, with the variants read so far.
unfoldable pub decode_variants :
    ℕ → Bytes → ℕ → List VariantEntry → Result FormatError (List VariantEntry)
decode_variants zero buf at out = ok out
decode_variants (suc n) buf at out = do
  (v, at) ← decode_binary_variant buf at
  decode_variants n buf at (out ++ (v ∷ []))

-- The 34 bytes of fixed fields.
pub record Header : Type 0 where
  pub version : ℕ
  pub created_unix : ℕ
  pub dict_offset : ℕ
  pub dict_size : ℕ
  pub dict_id : ℕ

unfoldable pub read_header : Bytes → Result FormatError Header
read_header buf = do
  reject_if (ltb (length buf) 34) truncated_index
  magic ← slice buf 0 4
  reject_if (not (bytes_eq magic index_magic_v2)) invalid_magic
  version ← uint_at buf 4 2
  reject_if (not (version == format_version2)) unsupported_version
  created ← uint_at buf 6 8
  dict_offset ← uint_at buf 14 8
  dict_size ← uint_at buf 22 8
  dict_id ← uint_at buf 30 4
  ok (record {
    version = version;
    created_unix = created;
    dict_offset = dict_offset;
    dict_size = dict_size;
    dict_id = dict_id;
  })

-- `data[offset : offset+2]` behind its guard: the number of variants.
unfoldable pub read_count : Bytes → ℕ → Read ℕ
read_count buf at = do
  reject_if (ltb (length buf) (at + 2)) truncated_index
  n ← uint_at buf at 2
  ok (n, at + 2)

unfoldable pub unmarshal_binary_index : Bytes → Result FormatError Index
unmarshal_binary_index buf = do
  h ← read_header buf
  (dict_sha, at) ← read_string8 buf 34
  reject_if (lt64 0 h.dict_size && lacks_checksum dict_sha) invalid_checksum
  (os, at) ← read_string8 buf at
  (arch, at) ← read_string8 buf at
  (app, at) ← read_string16 buf at
  (count, at) ← read_count buf at
  variants ← decode_variants count buf at []
  ok (record {
    version = h.version;
    app_name = app;
    target_os = os;
    target_arch = arch;
    created_unix = h.created_unix;
    dictionary_offset = h.dict_offset;
    dictionary_size = h.dict_size;
    dictionary_sha256 = to_lower dict_sha;
    dictionary_id = h.dict_id;
    variants = variants;
  })
