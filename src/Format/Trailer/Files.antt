-- ===== src/Format/Trailer/Files.antt =====
-- A file as a list of bytes, read at an offset and written at its end, and the trailer's bytes.
use microfat.Base.{
  ℕ, ◌+◌, ◌≡◌, true, none, some, [], ◌++◌, arith, length, length-append, take, drop, take-append,
  drop-append, leb, if◌then◌else◌, append-nil,
}
use microfat.Text.{Bytes}
use microfat.Result.{ok}
use microfat.Words.{put_uint, length-put_uint}
use microfat.Format.Types.{magic_string}
use microfat.Format.Buffer.Reading.{At, length-At}
use microfat.Format.Marshal.Exact.{Writes, writes_rules, write_copy-Writes}
use microfat.Format.Trailer.{ReaderAt, Writer, fill_trailer, make_trailer}

-- `os.File.ReadAt`, where a short read is an error.
abbrev pub file_reader : Bytes → ReaderAt
file_reader file at n = if leb (at + n) (length file) then some (take n (drop at file)) else none

abbrev pub append_writer : Writer Bytes
append_writer s bs = (s ++ bs, true)

take-drop-At :
    {file : Bytes} {at : ℕ} (s rest : Bytes)
    → At file at (s ++ rest)
    → take (length s) (drop at file) ≡ s
take-drop-At s rest h = rw (h.split, ← h.here, drop-append, take-append)

pub file_reader-At :
    {file : Bytes} {at : ℕ} (s rest : Bytes)
    → At file at (s ++ rest)
    → file_reader file at (length s) ≡ some s
file_reader-At s rest h = ground (arith, take-drop-At s rest h, length-At _ h, length-append s rest)

abbrev pub trailer_layout : (Bytes → Bytes) → Bytes → ℕ → Bytes
trailer_layout sha256 idx_bytes at =
    put_uint 8 at ++ (put_uint 8 (length idx_bytes) ++ (sha256 idx_bytes ++ magic_string))

module _ (sha256 : Bytes → Bytes) (sha256_len : (bs : Bytes) → length (sha256 bs) ≡ 32) where
  pub length-trailer_layout : (bs : Bytes) (at : ℕ) → length (trailer_layout sha256 bs at) ≡ 56
  length-trailer_layout bs at = grind (arith, length-append, length-put_uint, sha256_len)

  fill_trailer-Writes :
      (bs : Bytes) (at : ℕ) → Writes (fill_trailer sha256 bs at) (trailer_layout sha256 bs at)
  unfolding fill_trailer
  fill_trailer-Writes bs at = search (writes_rules, write_copy-Writes) depth 9

  -- The trailer is filled exactly.
  pub make_trailer-layout :
      (bs : Bytes) (at : ℕ) → make_trailer sha256 bs at ≡ ok (trailer_layout sha256 bs at)
  unfolding make_trailer
  make_trailer-layout bs at =
      let n = length-trailer_layout bs at in
      rw ((fill_trailer-Writes bs at).at [] 56 (omega (arith, n)), n, append-nil)
