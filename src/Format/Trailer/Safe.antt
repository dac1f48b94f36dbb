-- ===== src/Format/Trailer/Safe.antt =====
-- Reading a file of any content: what is accepted is safe.
use microfat.Base.{
  ℕ, ◌+◌, ◌-◌, ◌≤◌, ◌<◌, ◌≡◌, refl, Bool, true, false, ◌||◌, Option, none, some, arith, All, length,
  take, drop, leb, Bool-cases, inl, inr,
}
use microfat.Text.{Bytes}
use microfat.Result.Yields.{Yields, Yields-bind, Yields-after, Yields-ok}
use microfat.Result.{Result, ok, err, ◌>>=◌, ◌>>◌, reject_if, >>=-eq-ok}
use microfat.Words.{IsByte, IsNonneg, is_neg, lt64, le64, sub64}
use microfat.Format.Types.{FormatError, Index, IsTyped}
use microfat.Format.Unmarshal.{uint_at, unmarshal_binary_index}
use microfat.Format.Buffer.{slice}
use microfat.Format.Unmarshal.Typed.{unmarshal-Yields, All-take, All-drop}
use microfat.Format.Trailer.Files.{file_reader}
use microfat.Format.Bounds.{validate_bounds}
use microfat.Format.Bounds.Safe.{IsSafe}
use microfat.Format.Bounds.Sound.{validate_bounds-IsSafe}
use microfat.Format.Trailer.{ReaderAt, read_at, read_trailer_and_index}

-- What a reader returns are bytes.
abbrev pub ReadsBytes : ReaderAt → Type 0
ReadsBytes r = (at n : ℕ) (bs : Bytes) → r at n ≡ some bs → All IsByte bs

-- The index is safe at an offset in front of the trailer.
abbrev pub SafeWithin : ℕ → Index → Type 0
SafeWithin total idx = (at : ℕ) × (at + 56 < total) × IsSafe idx at

Yields-guard :
    {B : Type 0} {Q : B → Type 0} (b : Bool) (e : FormatError) (m : Result FormatError B)
    → (b ≡ false → Yields Q m)
    → Yields Q (reject_if b e >> m)
Yields-guard true e m k = record { of = λ a h. cc }
Yields-guard false e m k = k refl

Yields-slice :
    {B : Type 0} {Q : B → Type 0} (s : Bytes) (i j : ℕ) (f : Bytes → Result FormatError B)
    → ((part : Bytes) → Yields Q (f part))
    → Yields Q (slice s i j >>= f)
Yields-slice s i j f k = Yields-after (slice s i j) f k

Yields-uint_at :
    {B : Type 0} {Q : B → Type 0} (s : Bytes) (at n : ℕ) (f : ℕ → Result FormatError B)
    → ((v : ℕ) → Yields Q (f v))
    → Yields Q (uint_at s at n >>= f)
Yields-uint_at s at n f k = Yields-after (uint_at s at n) f k

Yields-unmarshal :
    {B : Type 0} {Q : B → Type 0} (bs : Bytes) (f : Index → Result FormatError B)
    → All IsByte bs
    → ((idx : Index) → IsTyped idx → Yields Q (f idx))
    → Yields Q (unmarshal_binary_index bs >>= f)
Yields-unmarshal bs f h k = Yields-bind (unmarshal_binary_index bs) f (unmarshal-Yields bs h) k

not_less : (a b : ℕ) → IsNonneg a → IsNonneg b → lt64 a b ≡ false → b ≤ a
not_less a b h k e = ground arith

sub64_trailer : (total : ℕ) → IsNonneg total → 56 ≤ total → sub64 total 56 ≡ total - 56
sub64_trailer total h k = omega arith

less : (a b : ℕ) → IsNonneg b → (is_neg a || le64 b a) ≡ false → a < b
less a b h e = ground arith

offset-within :
    (at total : ℕ)
    → IsNonneg total
    → lt64 total 56 ≡ false
    → (is_neg at || le64 (sub64 total 56) at) ≡ false
    → at + 56 < total
offset-within at total low long inside =
    let enough = not_less total 56 low (omega arith) long in
    let e = sub64_trailer total low enough in
    let before = less at (total - 56) (omega arith) (rw e at inside) in
    omega (arith, before, enough)

module _ (r : ReaderAt) (bytes : ReadsBytes r) where
  read_at-Yields : (at n : ℕ) (e : FormatError) → Yields (All IsByte) (read_at r at n e)
  unfolding read_at
  read_at-Yields at n e = go (r at n) refl
    where
      go :
          (o : Option Bytes)
          → r at n ≡ o
          → Yields (All IsByte) (elim o [ none ↦ err e | some bs ↦ ok bs ])
      go none h = record { of = λ a k. cc }
      go (some bs) h = Yields-ok bs (bytes at n bs h)

  Yields-read_at :
      {B : Type 0} {Q : B → Type 0} (at n : ℕ) (e : FormatError) (f : Bytes → Result FormatError B)
      → ((bs : Bytes) → All IsByte bs → Yields Q (f bs))
      → Yields Q (read_at r at n e >>= f)
  Yields-read_at at n e f k = Yields-bind (read_at r at n e) f (read_at-Yields at n e) k

  module _ (total : ℕ) (low : IsNonneg total) where
    Yields-validated :
        (idx : Index) (at : ℕ)
        → lt64 total 56 ≡ false
        → (is_neg at || le64 (sub64 total 56) at) ≡ false
        → IsTyped idx
        → Yields (SafeWithin total) (validate_bounds idx at >> ok idx)
    Yields-validated idx at long inside t = record {
      of = λ a h.
          let (u, valid, done) = >>=-eq-ok (validate_bounds idx at) (λ _. ok idx) h in
          let same : idx ≡ a = ground arith in
          let safe = validate_bounds-IsSafe idx at t valid in
          rw (← same) (at, offset-within at total low long inside, safe);
    }

    read-Yields :
        (sha256 : Bytes → Bytes) → Yields (SafeWithin total) (read_trailer_and_index sha256 r total)
    unfolding read_trailer_and_index
    read-Yields sha256 =
        search
          (
            Yields-guard, Yields-slice, Yields-uint_at, Yields-read_at, Yields-unmarshal,
            Yields-validated,
          )
          depth 24

-- Whatever the file holds, below 2 ^ 63 bytes: an index that is read from it is safe at an offset that
-- lies more than a trailer's length in front of the end. The reader may return any bytes.
pub read-IsSafe :
    (sha256 : Bytes → Bytes) (r : ReaderAt) (total : ℕ) {idx : Index}
    → ReadsBytes r
    → IsNonneg total
    → read_trailer_and_index sha256 r total ≡ ok idx
    → SafeWithin total idx
read-IsSafe sha256 r total {idx} bytes low h = (read-Yields r bytes total low sha256).of idx h

-- A file of bytes gives bytes.
pub file_reader-ReadsBytes : (file : Bytes) → All IsByte file → ReadsBytes (file_reader file)
file_reader-ReadsBytes file h at n bs e = elim (Bool-cases (leb (at + n) (length file))) [
  | inl k ↦
      let same : take n (drop at file) ≡ bs = ground (arith, k) in
      rw (← same) (All-take n (drop at file) (All-drop at file h))
  | inr k ↦ ground (arith, k)
]
