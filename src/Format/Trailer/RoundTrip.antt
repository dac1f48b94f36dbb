-- ===== src/Format/Trailer/RoundTrip.antt =====
-- A file to which an index and a trailer were written reads back as that index.
use microfat.Base.{
  ℕ, ◌+◌, ◌≤◌, ◌<◌, ◌≡◌, refl, ap, ◌∙◌, false, ◌++◌, arith, length, ltb, Bool-cases, inl, inr,
}
use microfat.Text.{Bytes}
use microfat.Result.{Result, ok, err, panic}
use microfat.Words.{IsNonneg}
use microfat.Format.Types.{FormatError, Index, IsTyped, max_index_size, format_version2}
use microfat.Format.Marshal.{marshal_binary_index}
use microfat.Format.Marshal.Exact.{marshal-ok}
use microfat.Format.Marshal.Layout.{index_layout, header_layout}
use microfat.Format.Unmarshal.RoundTrip.{canonical, unmarshal-marshal}
use microfat.Format.Bounds.Safe.{IsSafe}
use microfat.Format.Bounds.Complete.{validate_bounds-passes}
use microfat.Format.Trailer.{
  Written, write_trailer, write_marshaled, write_index_and_trailer_with_version,
  write_index_and_trailer, read_trailer_and_index, looks_like_legacy_json_index, trim_json_space,
  begins_with_brace,
}
use microfat.Format.Trailer.Files.{
  file_reader, append_writer, trailer_layout, length-trailer_layout, make_trailer-layout,
}
use microfat.Format.Trailer.Reading.{read-file_of}
use microfat.Format.Bounds.Canonical.{canonical-IsSafe}

abbrev current : Index → Index
current idx = record idx { version = format_version2 }

too_large : {e : FormatError} {n : ℕ} → ◌≡◌ {A = Result FormatError ℕ} (err e) (ok n) → ⊥
too_large h = cc

module _ (sha256 : Bytes → Bytes) (sha256_len : (bs : Bytes) → length (sha256 bs) ≡ 32) where
  -- What a successful write has done.
  record Wrote (idx : Index) (at : ℕ) (s : Bytes) (n : ℕ) (out : Written Bytes) : Type 0 where
    pub bs : Bytes
    pub encoded : marshal_binary_index (current idx) ≡ ok bs
    pub content : out.sink ≡ (s ++ bs) ++ trailer_layout sha256 bs at
    pub count : n ≡ length bs + 56
    pub small : length bs ≤ max_index_size
    pub at_nonneg : IsNonneg at

  marshaled-Wrote :
      (idx : Index) (at : ℕ) (s : Bytes) (n : ℕ) (r : Result FormatError Bytes)
      → marshal_binary_index (current idx) ≡ r
      → IsNonneg at
      → (write_marshaled sha256 append_writer (current idx) at s r).result ≡ ok n
      → Wrote idx at s n (write_marshaled sha256 append_writer (current idx) at s r)
  unfolding write_marshaled write_trailer
  marshaled-Wrote idx at s n (ok bs) e low h = elim (Bool-cases (ltb max_index_size (length bs))) [
    | inl large ↦ absurd (too_large (rw large at h))
    | inr small ↦
        let h' = rw (small, make_trailer-layout sha256 sha256_len bs at) at h in
        rw (small, make_trailer-layout sha256 sha256_len bs at)
          (record {
            bs = bs;
            encoded = e;
            content = refl;
            count = ground (arith, h', length-trailer_layout sha256 sha256_len bs at);
            small = ground arith;
            at_nonneg = low;
          })
  ]
  marshaled-Wrote idx at s n (err x) e low h = cc
  marshaled-Wrote idx at s n panic e low h = cc

  -- A write that returns a count has passed the tests of the offset and the version.
  written-marshaled :
      (idx : Index) (at : ℕ) (s : Bytes) (n : ℕ)
      → (write_index_and_trailer sha256 append_writer idx at s).result ≡ ok n
      → (IsNonneg at)
        × (write_index_and_trailer sha256 append_writer idx at s
            ≡ write_marshaled sha256 append_writer
                (current idx)
                at
                s
                (marshal_binary_index (current idx)))
  unfolding write_index_and_trailer write_index_and_trailer_with_version
  written-marshaled idx at s n h = ground arith

  written-Wrote :
      (idx : Index) (at : ℕ) (s : Bytes) (n : ℕ)
      → (write_index_and_trailer sha256 append_writer idx at s).result ≡ ok n
      → Wrote idx at s n (write_index_and_trailer sha256 append_writer idx at s)
  written-Wrote idx at s n h =
      let (low, e) = written-marshaled idx at s n h in
      rw e (marshaled-Wrote idx at s n (marshal_binary_index (current idx)) refl low (rw e at h))

layout-not_empty : (idx : Index) → 0 < length (index_layout idx)
unfolding index_layout header_layout
layout-not_empty idx = omega arith

typed : (idx : Index) → IsTyped idx → IsTyped (current idx)
typed idx t = record {
  created_fits = t.created_fits;
  dict_offset_fits = t.dict_offset_fits;
  dict_size_fits = t.dict_size_fits;
  dict_id_fits = t.dict_id_fits;
  variants_fit = t.variants_fit;
}

-- The index magic rules out the legacy form.
layout-not_json : (idx : Index) → looks_like_legacy_json_index (index_layout idx) ≡ false
unfolding looks_like_legacy_json_index index_layout header_layout trim_json_space begins_with_brace
layout-not_json idx = refl

module _ (sha256 : Bytes → Bytes) (sha256_len : (bs : Bytes) → length (sha256 bs) ≡ 32) where
  reads-Wrote :
      (idx : Index) (s : Bytes) (n : ℕ) (out : Written Bytes)
      → IsTyped idx
      → IsSafe (current idx) (length s)
      → IsNonneg (length s + n)
      → Wrote sha256 sha256_len idx (length s) s n out
      → read_trailer_and_index sha256 (file_reader out.sink) (length out.sink)
        ≡ ok (canonical (current idx))
  reads-Wrote idx s n out t safe low w =
      let (same, size) = marshal-ok (current idx) w.bs w.encoded in
      rw w.content (
        read-file_of sha256 sha256_len s w.bs (omega (arith, w.count))
          (rw same (layout-not_empty (current idx))) w.small
        ∙ ground (
          arith,
          ap looks_like_legacy_json_index same,
          layout-not_json (current idx),
          unmarshal-marshal (current idx) w.bs (typed idx t) w.encoded,
          validate_bounds-passes (canonical (current idx)) (length s)
              (canonical-IsSafe (current idx) (length s) safe),
        ))

  -- An index with numbers in the range of their Go types, safe at the offset at which it is written and
  -- of version 0 or 2, reads back from the file: the bytes that were there first, of which the offset
  -- is the length, then the index and the trailer. What is read is its canonical form. The hash is any
  -- function with 32 bytes as its value, and the sizes stay below 2 ^ 63.
  pub read-write :
      (idx : Index) (s : Bytes) (n : ℕ)
      → IsTyped idx
      → IsSafe (record idx { version = 2 }) (length s)
      → IsNonneg (length s + n)
      → (write_index_and_trailer sha256 append_writer idx (length s) s).result ≡ ok n
      → let file = (write_index_and_trailer sha256 append_writer idx (length s) s).sink in
        read_trailer_and_index sha256 (file_reader file) (length file)
        ≡ ok (canonical (record idx { version = 2 }))
  read-write idx s n t safe low h =
      reads-Wrote idx s n _ t safe low (written-Wrote sha256 sha256_len idx (length s) s n h)
