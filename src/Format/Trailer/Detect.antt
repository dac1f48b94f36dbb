-- ===== src/Format/Trailer/Detect.antt =====
-- How a file with no trailer is told from a corrupted one.
use microfat.Base.{
  ℕ, zero, suc, ◌+◌, ◌-◌, ◌≤◌, ◌<◌, ◌≡◌, refl, ap, ◌∙◌, sym, true, false, [], ◌∷◌, ◌++◌, arith,
  length, length-append, length-take, length-drop, take, drop, append_assoc, append-nil, some,
}
use microfat.Text.{Bytes, bytes_eq}
use microfat.Text.Laws.{bytes_eq_refl}
use microfat.Result.{Result, ok, err}
use microfat.Words.{IsNonneg, sub64, put_uint, length-put_uint}
use native.Mathlib.Decide.{dec_lt}
use microfat.Format.Types.{
  FormatError, Index, magic_string, index_magic_v2, max_index_size, invalid_magic, binary_too_small,
}
use microfat.Format.Buffer.{slice}
use microfat.Format.Buffer.Reading.{At, slice-At, slice-in_range}
use microfat.Format.Unmarshal.{read_header, unmarshal_binary_index}
use microfat.Format.Trailer.{
  read_at, read_trailer_and_index, is_fat_binary, is_missing_trailer_error,
  looks_like_legacy_json_index,
}
use microfat.Format.Trailer.Files.{file_reader, file_reader-At}
use microfat.Format.Trailer.Reading.{file_of, length-file_of, read-file_of}

take-append-drop : (n : ℕ) (xs : Bytes) → xs ≡ take n xs ++ drop n xs
take-append-drop zero xs = refl
take-append-drop (suc n) [] = refl
take-append-drop (suc n) (x ∷ xs) = ap (λ t. x ∷ t) (take-append-drop n xs)

-- A file of 56 bytes or more: what comes before the trailer, the trailer without its magic, and the
-- last eight bytes.
record Ending (file : Bytes) : Type 0 where
  pub before : Bytes
  pub fields : Bytes
  pub magic : Bytes
  pub split : file ≡ (before ++ fields) ++ magic
  pub fields_len : length fields ≡ 48
  pub magic_len : length magic ≡ 8

Ending-of : (file : Bytes) → 56 ≤ length file → Ending file
Ending-of file h = record {
  before = take (length file - 56) file;
  fields = take 48 (drop (length file - 56) file);
  magic = drop 48 (drop (length file - 56) file);
  split =
      take-append-drop (length file - 56) file
      ∙ ap (λ t. take (length file - 56) file ++ t)
          (take-append-drop 48 (drop (length file - 56) file))
      ∙ sym (append_assoc (take (length file - 56) file) _ _);
  fields_len =
      omega
        (arith, length-take 48 (drop (length file - 56) file), length-drop (length file - 56) file);
  magic_len =
      omega
        (arith, length-drop 48 (drop (length file - 56) file), length-drop (length file - 56) file);
}

module _ (file : Bytes) (end : Ending file) where
  length-Ending : length file ≡ length end.before + 56
  length-Ending = omega (
    arith,
    ap length end.split,
    length-append (end.before ++ end.fields) end.magic,
    length-append end.before end.fields,
    end.fields_len,
    end.magic_len,
  )

  last8 : file_reader file (length file - 8) 8 ≡ some end.magic
  last8 =
      let e = file_reader-At {at = length file - 8} end.magic [] (record {
        before = end.before ++ end.fields;
        split = end.split ∙ ap (λ t. (end.before ++ end.fields) ++ t) (sym (append-nil _));
        here = omega (arith, length-append end.before end.fields, length-Ending, end.fields_len);
      }) in
      rw end.magic_len at e

  length-fields_magic : length (end.fields ++ end.magic) ≡ 56
  length-fields_magic =
      omega (arith, length-append end.fields end.magic, end.fields_len, end.magic_len)

  last56 : file_reader file (length file - 56) 56 ≡ some (end.fields ++ end.magic)
  last56 =
      let e = file_reader-At {at = length file - 56} (end.fields ++ end.magic) [] (record {
        before = end.before;
        split =
            end.split
            ∙ append_assoc end.before end.fields end.magic
            ∙ ap (λ t. end.before ++ t) (sym (append-nil _));
        here = omega (arith, length-Ending);
      }) in
      rw length-fields_magic at e

  magic-Ending : slice {E = FormatError} (end.fields ++ end.magic) 48 56 ≡ ok end.magic
  magic-Ending =
      let h : At (end.fields ++ end.magic) 48 (end.magic ++ []) = record {
        before = end.fields;
        split = ap (λ t. end.fields ++ t) (sym (append-nil _));
        here = end.fields_len;
      } in
      ground (arith, end.magic_len, slice-At {E = FormatError} end.magic [] h)

  sub64-len : (n : ℕ) → IsNonneg (length file) → n ≤ 56 → sub64 (length file) n ≡ length file - n
  sub64-len n low small = omega (arith, length-Ending)

  fat-Ending :
      IsNonneg (length file)
      → is_fat_binary (file_reader file) (length file) ≡ bytes_eq end.magic magic_string
  unfolding is_fat_binary
  fat-Ending low = rw (sub64-len 8 low (omega arith), last8) (ground (arith, length-Ending))

  read-Ending :
      (sha256 : Bytes → Bytes)
      → IsNonneg (length file)
      → bytes_eq end.magic magic_string ≡ false
      → read_trailer_and_index sha256 (file_reader file) (length file) ≡ err invalid_magic
  unfolding read_trailer_and_index read_at
  read-Ending sha256 low h =
      rw (sub64-len 56 low (omega arith)) (ground (arith, length-Ending, last56, magic-Ending, h))

short-file :
    (sha256 : Bytes → Bytes) (file : Bytes)
    → length file < 56
    → read_trailer_and_index sha256 (file_reader file) (length file) ≡ err binary_too_small
unfolding read_trailer_and_index
short-file sha256 file h = ground arith

-- The error of a read, where it is one.
abbrev pub MissingTrailer : Result FormatError Index → Type 0
MissingTrailer (err e) = is_missing_trailer_error e ≡ true
MissingTrailer _ = ⊥

-- A file below 2 ^ 63 bytes in which the magic is not found is reported as one without a trailer.
pub not_fat-MissingTrailer :
    (sha256 : Bytes → Bytes) (file : Bytes)
    → IsNonneg (length file)
    → is_fat_binary (file_reader file) (length file) ≡ false
    → MissingTrailer (read_trailer_and_index sha256 (file_reader file) (length file))
not_fat-MissingTrailer sha256 file low h = elim (dec_lt (length file) 56) [
  | yes short ↦ rw (short-file sha256 file short) (unfold is_missing_trailer_error in refl)
  | no long ↦
      let end = Ending-of file (omega arith) in
      rw (read-Ending file end sha256 low (sym (fat-Ending file end low) ∙ h))
        (unfold is_missing_trailer_error in refl)
]

-- The decoder's own magic.
wrong_magic :
    (bs : Bytes)
    → 34 ≤ length bs
    → bytes_eq (take 4 bs) index_magic_v2 ≡ false
    → unmarshal_binary_index bs ≡ err invalid_magic
unfolding unmarshal_binary_index read_header
wrong_magic bs h w =
    ground (arith, slice-in_range {E = FormatError} bs 0 4 (omega arith) (omega arith))

module _ (sha256 : Bytes → Bytes) (sha256_len : (bs : Bytes) → length (sha256 bs) ≡ 32)
    (s bs : Bytes) (low : IsNonneg (length s + length bs + 56)) where
  Ending-file_of : Ending (file_of sha256 s bs)
  Ending-file_of = record {
    before = s ++ bs;
    fields = put_uint 8 (length s) ++ (put_uint 8 (length bs) ++ sha256 bs);
    magic = magic_string;
    split = simp append_assoc;
    fields_len = grind (arith, length-append, length-put_uint, sha256_len);
    magic_len = refl;
  }

  fat-file_of :
      is_fat_binary (file_reader (file_of sha256 s bs)) (length (file_of sha256 s bs)) ≡ true
  unfolding Ending-file_of
  fat-file_of =
      fat-Ending (file_of sha256 s bs) Ending-file_of
        (omega (arith, length-file_of sha256 sha256_len s bs))
      ∙ bytes_eq_refl magic_string

  -- A file whose trailer is whole and whose index hash is right, but whose index of 34 bytes to 1 MiB
  -- begins with other bytes than the index magic, and is no JSON text, counts as a fat binary by its
  -- magic and yet is reported as one that has no trailer.
  pub wrong_magic-MissingTrailer :
      34 ≤ length bs
      → length bs ≤ max_index_size
      → bytes_eq (take 4 bs) index_magic_v2 ≡ false
      → looks_like_legacy_json_index bs ≡ false
      → (is_fat_binary (file_reader (file_of sha256 s bs)) (length (file_of sha256 s bs)) ≡ true)
        × MissingTrailer (
            read_trailer_and_index sha256
              (file_reader (file_of sha256 s bs))
              (length (file_of sha256 s bs)))
  wrong_magic-MissingTrailer h small wrong not_json = (
    fat-file_of,
    rw
        (
          read-file_of sha256 sha256_len s bs low (omega arith) small,
          not_json,
          wrong_magic bs h wrong,
        )
        (unfold is_missing_trailer_error in refl),
  )
