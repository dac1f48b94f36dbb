-- ===== src/Format/Trailer.antt =====
-- `ReadTrailerAndIndex`, `WriteIndexAndTrailer` and their helpers of internal/format/format.go.
-- SHA-256 and the reader and writer are parameters: a reader gives the n bytes at an offset, or
-- fails; a writer takes bytes in a state of its own, and says whether it took them all.
pub mod Files
pub mod Reading
pub mod RoundTrip
pub mod Safe
pub mod Detect
use microfat.Base.{
  ℕ, ◌+◌, ◌≡◌, Bool, true, false, not, ◌&&◌, ◌||◌, Option, none, some, List, [], ◌∷◌, length,
  replicate, ltb, ◌==◌, if◌then◌else◌,
}
use microfat.Text.{Bytes, bytes_eq}
use microfat.Result.{Result, ok, err, panic, ◌>>=◌, ◌>>◌, reject_if}
use microfat.Words.{is_neg, lt64, le64, sub64, put_uint}
use microfat.Format.Types.{
  FormatError, Index, binary_too_small, trailer_read, invalid_magic, invalid_index_offset,
  invalid_index_size, index_corrupted, unsupported_version, io_failed, bad_argument, field_limit,
  magic_string, magic_len, trailer_size, max_index_size, format_version1, format_version2,
}
use microfat.Format.Buffer.{slice}
use microfat.Format.Marshal.{Cursor, write_bytes, write_copy, marshal_binary_index}
use microfat.Format.Unmarshal.{uint_at, unmarshal_binary_index}
use microfat.Format.Bounds.{validate_bounds}

-- `r.ReadAt(buf, offset)` with a buffer of n bytes, as `r offset n`.
abbrev pub ReaderAt : Type 0
ReaderAt = ℕ → ℕ → Option Bytes

-- `w.Write(p)`: the new state, and whether the error is nil.
abbrev pub Writer : Type 0 → Type 0
Writer S = S → Bytes → S × Bool

unfoldable pub read_at : ReaderAt → ℕ → ℕ → FormatError → Result FormatError Bytes
read_at r at n e = elim (r at n) [ none ↦ err e | some bs ↦ ok bs ]

-- `bytes.TrimLeft(data, " \t\r\n")`
unfoldable pub trim_json_space : Bytes → Bytes
trim_json_space [] = []
trim_json_space (c ∷ s) =
    let rest = trim_json_space s in
    if c == b' ' || c == b'\t' || c == b'\r' || c == b'\n' then rest else c ∷ s

unfoldable pub begins_with_brace : Bytes → Bool
begins_with_brace [] = false
begins_with_brace (c ∷ s) = c == b'{'

unfoldable pub looks_like_legacy_json_index : Bytes → Bool
looks_like_legacy_json_index s = begins_with_brace (trim_json_space s)

-- `IsFatBinary`
unfoldable pub is_fat_binary : ReaderAt → ℕ → Bool
is_fat_binary r total_size =
    if lt64 total_size trailer_size
    then false
    else elim (r (sub64 total_size magic_len) magic_len) [
      | none ↦ false
      | some bs ↦ bytes_eq bs magic_string
    ]

-- `IsMissingTrailerError`: `errors.Is` sees the sentinel through every wrapper.
unfoldable pub is_missing_trailer_error : FormatError → Bool
is_missing_trailer_error binary_too_small = true
is_missing_trailer_error invalid_magic = true
is_missing_trailer_error _ = false

-- What a write leaves: the writer's state, the index, whose version is set, and the returned values.
pub record Written (S : Type 0) : Type 0 where
  pub sink : S
  pub index : Index
  pub result : Result FormatError ℕ

module _ (sha256 : Bytes → Bytes) where
  unfoldable pub read_trailer_and_index : ReaderAt → ℕ → Result FormatError Index
  read_trailer_and_index r total_size = do
    reject_if (lt64 total_size trailer_size) binary_too_small
    trailer ← read_at r (sub64 total_size trailer_size) trailer_size trailer_read
    magic ← slice trailer 48 56
    reject_if (not (bytes_eq magic magic_string)) invalid_magic
    index_offset ← uint_at trailer 0 8
    index_size ← uint_at trailer 8 8
    let trailer_offset = sub64 total_size trailer_size
    reject_if (is_neg index_offset || le64 trailer_offset index_offset) invalid_index_offset
    reject_if
        (le64 index_size 0
          || lt64 max_index_size index_size
          || not (index_size == sub64 trailer_offset index_offset))
        invalid_index_size
    expected_hash ← slice trailer 16 48
    idx_bytes ← read_at r index_offset index_size io_failed
    reject_if (not (bytes_eq (sha256 idx_bytes) expected_hash)) index_corrupted
    reject_if (looks_like_legacy_json_index idx_bytes) unsupported_version
    idx ← unmarshal_binary_index idx_bytes
    validate_bounds idx index_offset
    ok idx

  -- The four writes into the 56 bytes of the trailer.
  unfoldable pub fill_trailer : Bytes → ℕ → Cursor → Result FormatError Cursor
  fill_trailer idx_bytes current_offset c = do
    c ← write_bytes (put_uint 8 current_offset) c
    c ← write_bytes (put_uint 8 (length idx_bytes)) c
    c ← write_copy (sha256 idx_bytes) c
    write_copy magic_string c

  unfoldable pub make_trailer : Bytes → ℕ → Result FormatError Bytes
  make_trailer idx_bytes current_offset = do
    c ←
        fill_trailer idx_bytes current_offset
          (record { buf = replicate trailer_size 0; offset = 0 })
    ok c.buf

  module _ {S : Type 0} (w : Writer S) where
    unfoldable pub write_trailer : Bytes → Index → S → Result FormatError Bytes → Written S
    write_trailer idx_bytes idx s (ok trailer) =
        let (s', done) = w s trailer in
        record {
          sink = s';
          index = idx;
          result = if done then ok (length idx_bytes + length trailer) else err io_failed;
        }
    write_trailer idx_bytes idx s (err e) = record { sink = s; index = idx; result = err e }
    write_trailer idx_bytes idx s panic = record { sink = s; index = idx; result = panic }

    unfoldable pub write_marshaled : Index → ℕ → S → Result FormatError Bytes → Written S
    write_marshaled idx current_offset s (ok idx_bytes) =
        if ltb max_index_size (length idx_bytes)
        then record { sink = s; index = idx; result = err field_limit }
        else let (s', done) = w s idx_bytes in
          if done
          then write_trailer idx_bytes idx s' (make_trailer idx_bytes current_offset)
          else record { sink = s'; index = idx; result = err io_failed }
    write_marshaled idx current_offset s (err e) = record { sink = s; index = idx; result = err e }
    write_marshaled idx current_offset s panic = record { sink = s; index = idx; result = panic }

    unfoldable pub write_index_and_trailer_with_version : Index → ℕ → ℕ → S → Written S
    write_index_and_trailer_with_version idx current_offset version s =
        if is_neg current_offset
        then record { sink = s; index = idx; result = err bad_argument }
        else if version == format_version1
        then record { sink = s; index = idx; result = err unsupported_version }
        else if not (version == format_version2)
        then record { sink = s; index = idx; result = err unsupported_version }
        else let idx' : Index = record idx { version = format_version2 } in
          write_marshaled idx' current_offset s (marshal_binary_index idx')

    -- Version 0 stands for the current one.
    unfoldable pub write_index_and_trailer : Index → ℕ → S → Written S
    write_index_and_trailer idx current_offset s =
        write_index_and_trailer_with_version idx current_offset
          (if idx.version == 0 then format_version2 else idx.version) s
