-- ===== src/Cgroup/Floats.antt =====
-- What the code uses of `float64` and of packages `math` and `strconv` on it: a parameter of the model.
use microfat.Base.{ℕ, Bool, Option}
use microfat.Text.{Bytes}

-- `of_int` and `to_int` are the conversions from and to `int64`, as bit patterns; `ratio n d` is the
-- constant n/d; `parse_float` is the value of `ParseFloat` where its error is nil.
pub record Floats (F : Type 0) : Type 0 where
  pub of_int : ℕ → F
  pub to_int : F → ℕ
  pub ratio : ℕ → ℕ → F
  pub mul : F → F → F
  pub div : F → F → F
  pub sub : F → F → F
  pub floor : F → F
  pub round : F → F
  pub lt : F → F → Bool
  pub le : F → F → Bool
  pub eq : F → F → Bool
  pub is_nan : F → Bool
  pub is_inf : F → Bool
  pub parse_float : Bytes → Option F
