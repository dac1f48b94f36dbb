-- ===== src/Text/Number/Range.antt =====
-- A number that is parsed is an `int64`.
use microfat.Base.{ℕ, ◌≡◌, some, [], ◌∷◌, arith}
use microfat.Text.{Bytes}
use microfat.Words.{IsInt64}
use microfat.Text.Number.{parse_int}

pub parse_int-IsInt64 : (s : Bytes) (n : ℕ) → parse_int s ≡ some n → IsInt64 n
unfolding parse_int
parse_int-IsInt64 [] n e = cc e
parse_int-IsInt64 (c ∷ s) n e = ground (arith, e)
