-- ===== src/Pack/Abi/Reading.antt =====
-- internal/pack/abi.go: `readIntoAt`, `readExactAt`, and the numbers that `binary.ByteOrder` reads. The
-- `io.ReaderAt` is a parameter.
use native.Mathlib.Nat.{pow-suc, mul-le-mul_right}
use microfat.Base.{
  ℕ, ◌+◌, ◌-◌, ◌*◌, ◌^◌, ◌≤◌, ◌<◌, ◌≡◌, refl, ◌⊎◌, inl, inr, Bool, true, false, ◌||◌, Option, none,
  some, [], ◌∷◌, ◌==◌, ltb, arith, length, take, drop, length-take, length-drop, All, if◌then◌else◌,
}
use microfat.Text.{Bytes}
use microfat.Words.{IsByte, get_uint, get_uint-bound}
use microfat.Result.{Result, ok, err, ◌>>=◌, Returns, Returns-ok, Returns-err, Returns-either}
use microfat.Format.Buffer.{slice}
use microfat.Format.Buffer.Reading.{slice-in_range}
use microfat.Format.Unmarshal.Typed.{All-take, All-drop}
use microfat.Pack.Abi.{AbiError, metadata, max_int64}

pub data ReadError : Type 0 where
  eof read_failed : ReadError

-- What `r.ReadAt(buf, off)` leaves in `buf`, and what it returns.
pub record ReadOutcome : Type 0 where
  pub buf : Bytes
  pub count : ℕ
  pub error : Option ReadError

-- Of the length of `buf` and `off`.
abbrev pub ReaderAt : Type 0
ReaderAt = ℕ → ℕ → ReadOutcome

-- A read fills bytes of the buffer and keeps its length.
abbrev pub FillsBuffer : ReaderAt → Type 0
FillsBuffer r = (size off : ℕ) → (length (r size off).buf ≡ size) × All IsByte (r size off).buf

unfoldable pub is_bad_read : ReadOutcome → ℕ → Bool
is_bad_read out size = elim out.error [
  | none ↦ false
  | some eof ↦ ltb out.count size
  | some read_failed ↦ true
]

unfoldable pub read_into_at : ReaderAt → ℕ → ℕ → Result AbiError Bytes
read_into_at r size off =
    let out = r size off in
    if size == 0
    then ok []
    else if ltb max_int64 off || ltb max_int64 size || ltb (max_int64 - size) off
    then err metadata
    else if is_bad_read out size
    then err metadata
    else ok out.buf

-- The same checks stand before the buffer is made.
unfoldable pub read_exact_at : ReaderAt → ℕ → ℕ → Result AbiError Bytes
read_exact_at r off size =
    let read = read_into_at r size off in
    if size == 0
    then ok []
    else if ltb max_int64 off || ltb max_int64 size || ltb (max_int64 - size) off
    then err metadata
    else read

pub data ByteOrder : Type 0 where
  little_endian big_endian : ByteOrder

unfoldable pub get_uint_be : Bytes → ℕ
get_uint_be [] = 0
get_uint_be (b ∷ bs) = b * 256 ^ length bs + get_uint_be bs

unfoldable pub order_uint : ByteOrder → Bytes → ℕ
order_uint little_endian bs = get_uint bs
order_uint big_endian bs = get_uint_be bs

-- `order.UintN(buf[from:to])`
unfoldable pub uint_at : ByteOrder → Bytes → ℕ → ℕ → Result AbiError ℕ
uint_at order buf from to = slice buf from to >>= λ bs. ok (order_uint order bs)

-- A buffer of a given length.
pub record IsBuffer (size : ℕ) (bs : Bytes) : Type 0 where
  pub size_eq : length bs ≡ size
  pub bytes : All IsByte bs

pub read_into_at-Returns : (r : ReaderAt) (size off : ℕ) → Returns (read_into_at r size off)
unfolding read_into_at
read_into_at-Returns r size off = search (Returns-either, Returns-ok, Returns-err)

pub read_exact_at-Returns : (r : ReaderAt) (off size : ℕ) → Returns (read_exact_at r off size)
unfolding read_exact_at
read_exact_at-Returns r off size =
    search (Returns-either, Returns-ok, Returns-err, read_into_at-Returns)

read_into_at-value :
    (r : ReaderAt) (size off : ℕ) (bs : Bytes)
    → read_into_at r size off ≡ ok bs
    → ((size ≡ 0) × (bs ≡ [])) ⊎ (bs ≡ (r size off).buf)
unfolding read_into_at
read_into_at-value r size off bs e = ground arith

pub read_into_at-IsBuffer :
    (r : ReaderAt) (size off : ℕ) (bs : Bytes)
    → FillsBuffer r
    → read_into_at r size off ≡ ok bs
    → IsBuffer size bs
read_into_at-IsBuffer r size off bs h e = elim (read_into_at-value r size off bs e) [
  | inl (none_asked, same) ↦ rw (same, none_asked) (record { size_eq = refl; bytes = tt })
  | inr same ↦ rw same (record { size_eq = (h size off).0; bytes = (h size off).1 })
]

read_exact_at-eq :
    (r : ReaderAt) (off size : ℕ) (bs : Bytes)
    → read_exact_at r off size ≡ ok bs
    → read_into_at r size off ≡ ok bs
unfolding read_exact_at read_into_at
read_exact_at-eq r off size bs e = ground arith

pub read_exact_at-IsBuffer :
    (r : ReaderAt) (off size : ℕ) (bs : Bytes)
    → FillsBuffer r
    → read_exact_at r off size ≡ ok bs
    → IsBuffer size bs
unfolding read_exact_at
read_exact_at-IsBuffer r off size bs h e =
    let same : read_into_at r size off ≡ ok bs = read_exact_at-eq r off size bs e in
    read_into_at-IsBuffer r size off bs h same

get_uint_be-bound : (bs : Bytes) → All IsByte bs → get_uint_be bs < 256 ^ length bs
unfolding get_uint_be
get_uint_be-bound [] h = omega arith
get_uint_be-bound (b ∷ bs) (h, hs) = omega (
  arith,
  get_uint_be-bound bs hs,
  pow-suc 256 (length bs),
  mul-le-mul_right {m = b} {n = 255} (256 ^ length bs) (omega arith),
)

order_uint-bound :
    (order : ByteOrder) (bs : Bytes) → All IsByte bs → order_uint order bs < 256 ^ length bs
unfolding order_uint
order_uint-bound little_endian bs h = get_uint-bound bs h
order_uint-bound big_endian bs h = get_uint_be-bound bs h

-- A field that lies in the buffer is read, and fits its width.
pub uint_at-in_range :
    (order : ByteOrder) (buf : Bytes) (size from to : ℕ)
    → IsBuffer size buf
    → from ≤ to
    → to ≤ size
    → (v : ℕ) × (uint_at order buf from to ≡ ok v) × (v < 256 ^ (to - from))
unfolding uint_at
uint_at-in_range order buf size from to b h k =
    let bs = take (to - from) (drop from buf) in
    let n : length bs ≡ to - from =
      omega (arith, length-take (to - from) (drop from buf), length-drop from buf, b.size_eq) in
    (
      order_uint order bs,
      rw (slice-in_range {E = AbiError} buf from to h (omega (arith, b.size_eq))) refl,
      rw n at (
          order_uint-bound order bs
            (All-take (to - from) (drop from buf) (All-drop from buf b.bytes))),
    )
