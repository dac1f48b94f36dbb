-- ===== src/Result/Yields.antt =====
-- A property of the value that a call returns, where it returns one.
use microfat.Base.{◌≡◌, refl, arith, Bool, true, false, if◌then◌else◌}
use microfat.Result.{Result, ok, err, panic, ◌>>=◌}

-- Whatever the call returns has `P`.
pub record Yields {E A : Type 0} (P : A → Type 0) (m : Result E A) : Type 0 where
  pub of : (a : A) → m ≡ ok a → P a

module _ {E A B : Type 0} {Q : B → Type 0} where
  pub Yields-bind :
      {P : A → Type 0} (m : Result E A) (f : A → Result E B)
      → Yields P m
      → ((a : A) → P a → Yields Q (f a))
      → Yields Q (m >>= f)
  Yields-bind (ok a) f y k = k a (y.of a refl)
  Yields-bind (err e) f y k = record { of = λ b h. cc }
  Yields-bind panic f y k = record { of = λ b h. cc }

  -- Nothing is asked of the value of the first part.
  pub Yields-after :
      (m : Result E A) (f : A → Result E B) → ((a : A) → Yields Q (f a)) → Yields Q (m >>= f)
  Yields-after m f k = Yields-bind {P = λ a. Unit} m f (record { of = λ a h. tt }) (λ a t. k a)

pub Yields-ok : {E A : Type 0} {P : A → Type 0} (a : A) → P a → Yields {E = E} P (ok a)
Yields-ok {P = P} a p = record { of = λ b h. let same : a ≡ b = ground arith in rw (← same) p }

module _ {E A : Type 0} {P : A → Type 0} where
  pub Yields-err : (e : E) → Yields P (err e)
  Yields-err e = record { of = λ a h. cc }

  pub Yields-panic : Yields {E = E} P panic
  Yields-panic = record { of = λ a h. cc }

  -- Each way that a test goes.
  pub Yields-if :
      (b : Bool) (m n : Result E A) → Yields P m → Yields P n → Yields P (if b then m else n)
  Yields-if true m n y z = y
  Yields-if false m n y z = z
