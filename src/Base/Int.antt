-- ===== src/Base/Int.antt =====
-- Go's `int` where it can be negative: `negsuc n` is -(n + 1).
use Prim.Native.Nat.{ℕ}
use mathlib.Core.Bool.{Bool, true, false, not}
use microfat.Base.{ltb}

pub data ℤ : Type 0 where
  pos : ℕ → ℤ
  negsuc : ℕ → ℤ

-- `a < b` and `a <= b`
abbrev pub ltz : ℤ → ℤ → Bool
ltz (pos a) (pos b) = ltb a b
ltz (pos a) (negsuc b) = false
ltz (negsuc a) (pos b) = true
ltz (negsuc a) (negsuc b) = ltb b a

abbrev pub lez : ℤ → ℤ → Bool
lez a b = not (ltz b a)
