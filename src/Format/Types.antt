-- ===== src/Format/Types.antt =====
-- The data of internal/format/format.go: constants, errors and the index. The numbers are `int64`
-- bit patterns (see Words), and the texts are bytes.
use microfat.Base.{ℕ, ◌*◌, ◌^◌, ◌<◌, List, ◌∷◌, All}
use microfat.Text.{Bytes, codes}
use microfat.Words.{IsInt64}

abbrev pub magic_string : Bytes
magic_string = 0x00 ∷ 0xFA ∷ 0x7F ∷ codes "MICRO"

abbrev pub index_magic_v2 : Bytes
index_magic_v2 = 0x00 ∷ 0xFA ∷ codes "M2"

abbrev pub trailer_size : ℕ
trailer_size = 56

abbrev pub hash_len : ℕ
hash_len = 32

abbrev pub magic_len : ℕ
magic_len = 8

abbrev pub format_version1 : ℕ
format_version1 = 1

abbrev pub format_version2 : ℕ
format_version2 = 2

abbrev pub max_index_size : ℕ
max_index_size = 1024 * 1024

abbrev pub max_payload_size : ℕ
max_payload_size = 1024 * 1024 * 1024

abbrev pub max_dictionary_size : ℕ
max_dictionary_size = 1024 * 1024

abbrev pub default_compression_algorithm : Bytes
default_compression_algorithm = codes "zstd"

-- The sentinel that an error wraps. The last three are `errors.New` and `fmt.Errorf` values with
-- no sentinel: a limit of the wire format, a failed read or write, and a bad argument.
pub data FormatError : Type 0 where
  binary_too_small invalid_magic trailer_read unsupported_version : FormatError
  invalid_index_offset invalid_index_size index_corrupted : FormatError
  out_of_bounds payload_too_large overlapping_variant truncated_index : FormatError
  invalid_dictionary invalid_checksum no_variants_specified : FormatError
  duplicate_variant invalid_variant : FormatError
  field_limit io_failed bad_argument : FormatError

pub record VariantEntry : Type 0 where
  pub level : Bytes
  pub offset : ℕ
  pub compressed_size : ℕ
  pub uncompressed_size : ℕ
  pub sha256 : Bytes
  pub compression : Bytes

pub record Index : Type 0 where
  pub version : ℕ
  pub app_name : Bytes
  pub target_os : Bytes
  pub target_arch : Bytes
  pub created_unix : ℕ
  pub dictionary_offset : ℕ
  pub dictionary_size : ℕ
  pub dictionary_sha256 : Bytes
  pub dictionary_id : ℕ
  pub variants : List VariantEntry

-- The numbers of a variant and of an index lie in the range of their Go types.
abbrev pub VariantIsTyped : VariantEntry → Type 0
VariantIsTyped v = IsInt64 v.offset × IsInt64 v.compressed_size × IsInt64 v.uncompressed_size

pub record IsTyped (idx : Index) : Type 0 where
  pub created_fits : IsInt64 idx.created_unix
  pub dict_offset_fits : IsInt64 idx.dictionary_offset
  pub dict_size_fits : IsInt64 idx.dictionary_size
  pub dict_id_fits : idx.dictionary_id < 2 ^ 32
  pub variants_fit : All VariantIsTyped idx.variants
