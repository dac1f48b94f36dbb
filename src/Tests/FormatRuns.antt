-- ===== src/Tests/FormatRuns.antt =====
-- Runs of internal/format/format.go on small files.
use microfat.Base.{
  ltb, All, ◌&&◌, Bool, ◌≡◌, ◌↔◌, refl, true, false, some, [], ◌∷◌, arith, length, replicate, take,
}
use microfat.Text.{Bytes, codes, bytes_eq, to_lower, trim_space, trim_prefix, has_prefix}
use microfat.Microarch.Level.{normalize, rank, switch, ranks_of, with_v, trim_prefixes}
use microfat.Result.{ok, Returns, ◌>>=◌}
use microfat.Format.Types.{Index, VariantEntry, IsTyped, index_magic_v2}
use microfat.Format.Marshal.{
  index_size, marshal_binary_index, total_size, variant_size, compression_of, fixed_size,
}
use microfat.Format.Marshal.Layout.{
  index_layout, header_layout, string8, string16, variants_layout, variant_layout,
}
use microfat.Format.Marshal.Exact.{marshal-layout, length-index_layout}
use microfat.Format.Unmarshal.{unmarshal_binary_index}
use microfat.Format.Unmarshal.Total.{unmarshal-Returns}
use microfat.Format.Unmarshal.RoundTrip.{canonical, unmarshal-marshal}
use microfat.Format.Bounds.{
  validate_bounds, validate_variants, validate_dictionary_bounds, validate_variant, no_variants,
  is_unknown_arch, contains,
}
use microfat.Format.Bounds.Safe.{IsSafe}
use microfat.Format.Bounds.Sound.{validate_bounds-IsSafe}
use microfat.Format.Bounds.Complete.{validate_bounds_iff}
use microfat.Format.Trailer.{
  write_index_and_trailer_with_version, write_marshaled, write_trailer,
  looks_like_legacy_json_index, begins_with_brace, trim_json_space, is_fat_binary,
  read_trailer_and_index, write_index_and_trailer,
}
use microfat.Format.Lookup.{find_variant, find_variant-at}
use microfat.Format.Trailer.Files.{
  file_reader, append_writer, make_trailer-layout, length-trailer_layout,
}
use microfat.Format.Escape.{escape_json_string, read_chars, unescape-escape_json_string}
use microfat.Words.{IsByte, IsNonneg, put_uint}
use microfat.Format.Trailer.Safe.{SafeWithin, read-IsSafe, file_reader-ReadsBytes}
use microfat.Format.Trailer.Reading.{file_of, length-file_of}
use microfat.Format.Trailer.RoundTrip.{read-write}
use microfat.Format.Trailer.Detect.{
  MissingTrailer, not_fat-MissingTrailer, wrong_magic-MissingTrailer,
}
use microfat.Format.Checksum.{all_hex, validate_checksum, validate_checksum-to_lower}

abbrev digest : Bytes
digest = replicate 64 b'a'

abbrev base_entry : VariantEntry
base_entry = record {
  level = codes "v1";
  offset = 0;
  compressed_size = 3;
  uncompressed_size = 5;
  sha256 = digest;
  compression = [];
}

abbrev fast_entry : VariantEntry
fast_entry = record {
  level = codes "v3";
  offset = 3;
  compressed_size = 5;
  uncompressed_size = 9;
  sha256 = digest;
  compression = codes "none";
}

abbrev two_variants : Index
two_variants = record {
  version = 2;
  app_name = codes "app";
  target_os = codes "linux";
  target_arch = codes "amd64";
  created_unix = 1700000000;
  dictionary_offset = 0;
  dictionary_size = 0;
  dictionary_sha256 = [];
  dictionary_id = 0;
  variants = base_entry ∷ fast_entry ∷ [];
}

-- The two payloads in front of the index.
abbrev payloads : Bytes
payloads = replicate 8 7

-- A function with 32 bytes as its value, in the place of the hash.
abbrev constant_hash : Bytes → Bytes
constant_hash bs = replicate 32 0

constant_hash-len : (bs : Bytes) → length (constant_hash bs) ≡ 32
constant_hash-len bs = refl

two_variants-IsTyped : IsTyped two_variants
two_variants-IsTyped = record {
  created_fits = omega arith;
  dict_offset_fits = omega arith;
  dict_size_fits = omega arith;
  dict_id_fits = omega arith;
  variants_fit =
      ((omega arith, omega arith, omega arith), ((omega arith, omega arith, omega arith), tt));
}

-- The validation accepts the index in front of which the payloads stand.
two_variants-validates : validate_bounds two_variants 8 ≡ ok tt
unfolding validate_bounds validate_variants validate_dictionary_bounds validate_variant no_variants
    is_unknown_arch bytes_eq to_lower trim_space rank switch ranks_of normalize with_v trim_prefixes
    trim_prefix contains validate_checksum all_hex
two_variants-validates = refl

two_variants-IsSafe : IsSafe two_variants 8
two_variants-IsSafe =
    validate_bounds-IsSafe two_variants 8 two_variants-IsTyped two_variants-validates

-- The index has 248 bytes.
two_variants-size : index_size two_variants ≡ ok 248
unfolding index_size total_size variant_size validate_checksum all_hex compression_of fixed_size
two_variants-size = refl

two_variants-marshal : marshal_binary_index two_variants ≡ ok (index_layout two_variants)
two_variants-marshal = rw (marshal-layout, two_variants-size) refl

-- The writer returns the bytes of the index and of the trailer.
two_variants-write :
    (write_index_and_trailer constant_hash append_writer two_variants 8 payloads).result ≡ ok 304
unfolding write_index_and_trailer write_index_and_trailer_with_version write_marshaled write_trailer
two_variants-write =
    let size = length-index_layout two_variants 248 two_variants-size in
    rw
      (
        two_variants-marshal,
        make_trailer-layout constant_hash constant_hash-len (index_layout two_variants) 8,
        length-trailer_layout constant_hash constant_hash-len (index_layout two_variants) 8,
        ← size,
      )
      refl

marshal-layout_example :
    marshal_binary_index two_variants
    ≡ (index_size two_variants >>= λ _. ok (index_layout two_variants))
marshal-layout_example = marshal-layout two_variants

unmarshal-Returns_example : Returns (unmarshal_binary_index (codes "MFv2 cut short"))
unmarshal-Returns_example = unmarshal-Returns (codes "MFv2 cut short")

unmarshal-marshal_example :
    unmarshal_binary_index (index_layout two_variants) ≡ ok (canonical two_variants)
unmarshal-marshal_example =
    unmarshal-marshal two_variants (index_layout two_variants) two_variants-IsTyped
      two_variants-marshal

validate_bounds_iff_example : (validate_bounds two_variants 8 ≡ ok tt) ↔ IsSafe two_variants 8
validate_bounds_iff_example = validate_bounds_iff two_variants 8 two_variants-IsTyped

abbrev written_file : Bytes
written_file = (write_index_and_trailer constant_hash append_writer two_variants 8 payloads).sink

read-write_example :
    read_trailer_and_index constant_hash (file_reader written_file) (length written_file)
    ≡ ok (canonical two_variants)
read-write_example =
    read-write constant_hash constant_hash-len two_variants payloads 304 two_variants-IsTyped
      two_variants-IsSafe (omega arith) two_variants-write

-- A file of 60 bytes with no magic at its end.
abbrev plain_file : Bytes
plain_file = replicate 60 1

plain_file-not_fat : is_fat_binary (file_reader plain_file) 60 ≡ false
unfolding is_fat_binary bytes_eq
plain_file-not_fat = refl

not_fat-MissingTrailer_example :
    MissingTrailer (read_trailer_and_index constant_hash (file_reader plain_file) 60)
not_fat-MissingTrailer_example =
    not_fat-MissingTrailer constant_hash plain_file (omega arith) plain_file-not_fat

-- An index of 40 bytes that begins with no magic.
abbrev foreign_index : Bytes
foreign_index = replicate 40 1

foreign_index-wrong : bytes_eq (take 4 foreign_index) index_magic_v2 ≡ false
unfolding bytes_eq
foreign_index-wrong = refl

foreign_index-not_json : looks_like_legacy_json_index foreign_index ≡ false
unfolding looks_like_legacy_json_index begins_with_brace trim_json_space
foreign_index-not_json = refl

abbrev foreign_file : Bytes
foreign_file = file_of constant_hash payloads foreign_index

wrong_magic-MissingTrailer_example :
    (is_fat_binary (file_reader foreign_file) (length foreign_file) ≡ true)
    × MissingTrailer
        (read_trailer_and_index constant_hash (file_reader foreign_file) (length foreign_file))
wrong_magic-MissingTrailer_example =
    wrong_magic-MissingTrailer constant_hash constant_hash-len payloads foreign_index (omega arith)
      (omega arith) (omega arith) foreign_index-wrong foreign_index-not_json

validate_checksum-to_lower_example :
    validate_checksum (to_lower (codes "0A")) ≡ validate_checksum (codes "0A")
validate_checksum-to_lower_example = validate_checksum-to_lower (codes "0A")

find_variant-at_example : find_variant two_variants (codes "AMD64-V3") ≡ some fast_entry
unfolding normalize with_v trim_prefixes trim_prefix has_prefix trim_space to_lower bytes_eq
find_variant-at_example =
    find_variant-at two_variants 1 fast_entry (codes "AMD64-V3") two_variants-IsSafe.distinct refl
      refl

-- The file that is written, as bytes.
abbrev fat_file : Bytes
fat_file = file_of constant_hash payloads (index_layout two_variants)

two_variants-file :
    (write_index_and_trailer constant_hash append_writer two_variants 8 payloads).sink ≡ fat_file
unfolding write_index_and_trailer write_index_and_trailer_with_version write_marshaled write_trailer
two_variants-file =
    let size = length-index_layout two_variants 248 two_variants-size in
    rw
      (
        two_variants-marshal,
        make_trailer-layout constant_hash constant_hash-len (index_layout two_variants) 8,
        ← size,
      )
      refl

abbrev all_bytes : Bytes → Bool
all_bytes [] = true
all_bytes (b ∷ s) = ltb b 256 && all_bytes s

bytes_of_all_bytes : (s : Bytes) → all_bytes s ≡ true → All IsByte s
bytes_of_all_bytes [] h = tt
bytes_of_all_bytes (b ∷ s) h = (ground arith, bytes_of_all_bytes s (ground arith))

fat_file-bytes : all_bytes fat_file ≡ true
unfolding index_layout header_layout put_uint string8 string16 variants_layout variant_layout
    compression_of
fat_file-bytes = refl

fat_file-small : IsNonneg (length fat_file)
fat_file-small =
    let size = length-index_layout two_variants 248 two_variants-size in
    omega (
      arith,
      length-file_of constant_hash constant_hash-len payloads (index_layout two_variants),
      size,
    )

read-IsSafe_example : SafeWithin (length fat_file) (canonical two_variants)
read-IsSafe_example =
    read-IsSafe constant_hash (file_reader fat_file) (length fat_file)
      (file_reader-ReadsBytes fat_file (bytes_of_all_bytes fat_file fat_file-bytes)) fat_file-small
      (rw two_variants-file at read-write_example)

-- A quote, a line feed and a control character.
abbrev log_text : Bytes
log_text = b'"' ∷ b'\n' ∷ 1 ∷ b'z' ∷ []

unescape-escape_json_string_example : read_chars 4 (escape_json_string log_text) ≡ some log_text
unescape-escape_json_string_example = unescape-escape_json_string log_text
