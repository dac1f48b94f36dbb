-- ===== src/Format/Buffer.antt =====
-- Byte buffers as the encoder and the decoder use them: Go's indexing, slicing and copying, each
-- with its run-time panic.
pub mod Writing
pub mod Reading
use microfat.Base.{ℕ, ◌+◌, ◌-◌, none, some, ◌++◌, length, get_elem?, take, drop, leb, if◌then◌else◌}
use microfat.Text.{Bytes}
use microfat.Result.{Result, ok, panic}

module _ {E : Type 0} where
  -- `data[i]`
  unfoldable pub index : Bytes → ℕ → Result E ℕ
  index s i = elim (get_elem? s i) [ none ↦ panic | some b ↦ ok b ]

  -- `data[from:to]`, held to the length
  unfoldable pub slice : Bytes → ℕ → ℕ → Result E Bytes
  slice s from to =
      if leb from to
      then (if leb to (length s) then ok (take (to - from) (drop from s)) else panic)
      else panic

  -- `buf[at] = b`, and `PutUintN(buf[at:at+n], v)` with the n bytes of v
  unfoldable pub store : Bytes → ℕ → Bytes → Result E Bytes
  store buf at bs =
      if leb (at + length bs) (length buf)
      then ok (take at buf ++ bs ++ drop (at + length bs) buf)
      else panic

  -- `copy(buf[at:], s)` copies what fits
  unfoldable pub copy_at : Bytes → ℕ → Bytes → Result E Bytes
  copy_at buf at s =
      if leb at (length buf)
      then ok (take at buf ++ take (length buf - at) s ++ drop (at + length s) buf)
      else panic
