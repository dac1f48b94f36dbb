-- ===== src/Format/Trailer/Reading.antt =====
-- Reading a file that ends in an index and its trailer.
use microfat.Base.{
  some, ℕ, ◌+◌, ◌^◌, ◌≤◌, ◌<◌, ◌≡◌, refl, ap, [], ◌++◌, arith, length, length-append, append_assoc,
  append-nil, sym,
}
use microfat.Text.{Bytes}
use microfat.Text.Laws.{bytes_eq_refl}
use microfat.Result.{ok, ◌>>=◌, ◌>>◌, reject_if}
use microfat.Words.{IsNonneg, sub64, put_uint}
use microfat.Format.Types.{FormatError, magic_string, max_index_size, unsupported_version}
use microfat.Format.Buffer.{slice}
use microfat.Format.Buffer.Reading.{At, At-start, At-step, slice-At}
use microfat.Format.Unmarshal.{uint_at, unmarshal_binary_index}
use microfat.Format.Unmarshal.Fields.{At-to, At-uint, uint_at-At}
use microfat.Format.Bounds.{validate_bounds}
use microfat.Format.Trailer.{
  ReaderAt, read_at, read_trailer_and_index, looks_like_legacy_json_index,
}
use microfat.Format.Trailer.Files.{
  file_reader, file_reader-At, trailer_layout, length-trailer_layout,
}

-- `s`, an index of any bytes, and the trailer for it.
abbrev pub file_of : (Bytes → Bytes) → Bytes → Bytes → Bytes
file_of sha256 s bs = (s ++ bs) ++ trailer_layout sha256 bs (length s)

module _ (sha256 : Bytes → Bytes) (sha256_len : (bs : Bytes) → length (sha256 bs) ≡ 32) where
  module _ (bs : Bytes) (at : ℕ) where
    -- The four fields of the trailer at their offsets.
    trailer-At : At (trailer_layout sha256 bs at) 0 (trailer_layout sha256 bs at)
    trailer-At = At-start _

    offset-field : at < 2 ^ 64 → uint_at (trailer_layout sha256 bs at) 0 8 ≡ ok at
    offset-field h = uint_at-At _ 8 at h trailer-At

    size-At :
        At (trailer_layout sha256 bs at) 8 (put_uint 8 (length bs) ++ (sha256 bs ++ magic_string))
    size-At = At-uint 8 at _ trailer-At

    size-field : length bs < 2 ^ 64 → uint_at (trailer_layout sha256 bs at) 8 8 ≡ ok (length bs)
    size-field h = uint_at-At _ 8 (length bs) h size-At

    hash-At : At (trailer_layout sha256 bs at) 16 (sha256 bs ++ magic_string)
    hash-At = At-uint 8 (length bs) _ size-At

    hash-field : slice {E = FormatError} (trailer_layout sha256 bs at) 16 48 ≡ ok (sha256 bs)
    hash-field =
        ground (arith, sha256_len bs, slice-At {E = FormatError} (sha256 bs) magic_string hash-At)

    magic-field : slice {E = FormatError} (trailer_layout sha256 bs at) 48 56 ≡ ok magic_string
    magic-field =
        slice-At magic_string []
          (At-to (omega (arith, sha256_len bs)) (At-step (sha256 bs) magic_string hash-At))

  sub64-trailer : (n : ℕ) → IsNonneg (n + 56) → sub64 (n + 56) 56 ≡ n
  sub64-trailer n h = omega arith

  module _ (r : ReaderAt) (trailer bs : Bytes) (at size : ℕ) where
    read-parts :
        r (at + size) 56 ≡ some trailer
        → r at size ≡ some bs
        → slice {E = FormatError} trailer 48 56 ≡ ok magic_string
        → uint_at trailer 0 8 ≡ ok at
        → uint_at trailer 8 8 ≡ ok size
        → slice {E = FormatError} trailer 16 48 ≡ ok (sha256 bs)
        → IsNonneg (at + size + 56)
        → 0 < size
        → size ≤ max_index_size
        → read_trailer_and_index sha256 r (at + size + 56) ≡ (do
          reject_if (looks_like_legacy_json_index bs) unsupported_version
          idx ← unmarshal_binary_index bs
          validate_bounds idx at
          ok idx)
    unfolding read_trailer_and_index read_at
    read-parts rt ri magic at_field size_field hash low some_byte small =
        rw (sub64-trailer (at + size) low)
          (ground (arith, bytes_eq_refl magic_string, bytes_eq_refl (sha256 bs)))

  module _ (s bs : Bytes) where
    pub length-file_of : length (file_of sha256 s bs) ≡ length s + length bs + 56
    length-file_of = omega (
      arith,
      length-append (s ++ bs) (trailer_layout sha256 bs (length s)),
      length-append s bs,
      length-trailer_layout sha256 sha256_len bs (length s),
    )

    index-read : file_reader (file_of sha256 s bs) (length s) (length bs) ≡ some bs
    index-read =
        file_reader-At bs (trailer_layout sha256 bs (length s))
          (record { before = s; split = append_assoc s bs _; here = refl })

    trailer-read :
        file_reader (file_of sha256 s bs) (length s + length bs) 56
        ≡ some (trailer_layout sha256 bs (length s))
    trailer-read =
        let e = file_reader-At (trailer_layout sha256 bs (length s)) [] (record {
          before = s ++ bs;
          split = ap (λ t. (s ++ bs) ++ t) (sym (append-nil _));
          here = length-append s bs;
        }) in
        rw (length-trailer_layout sha256 sha256_len bs (length s)) at e

    -- What is left of the read when the trailer and the index are as they were written.
    pub read-file_of :
        IsNonneg (length s + length bs + 56)
        → 0 < length bs
        → length bs ≤ max_index_size
        → read_trailer_and_index sha256
            (file_reader (file_of sha256 s bs))
            (length (file_of sha256 s bs))
          ≡ (do
            reject_if (looks_like_legacy_json_index bs) unsupported_version
            idx ← unmarshal_binary_index bs
            validate_bounds idx (length s)
            ok idx)
    read-file_of low some_byte small = rw length-file_of (
        read-parts (file_reader (file_of sha256 s bs)) (trailer_layout sha256 bs (length s)) bs
          (length s) (length bs) trailer-read index-read (magic-field bs (length s))
          (offset-field bs (length s) (omega arith)) (size-field bs (length s) (omega arith))
          (hash-field bs (length s)) low some_byte small)
