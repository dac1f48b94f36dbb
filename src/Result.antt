-- ===== src/Result.antt =====
-- The outcome of a Go function that returns an error: a value, an error, or a run-time panic (an
-- index or a slice out of range). The type of errors is a parameter.
pub mod Yields
use microfat.Base.{if◌then◌else◌, ◌≡◌, ◌≢◌, refl, Bool, true, false}

pub data Result {ℓ} (E A : Type ℓ) : Type ℓ where
  panic : Result E A
  err : E → Result E A
  ok : A → Result E A

infixl 5 ◌>>=◌ ◌>>◌
-- What follows a call: it runs on the value that the call returned.
abbrev pub ◌>>=◌ {ℓ} : {E A B : Type ℓ} → Result E A → (A → Result E B) → Result E B
panic >>= rest = panic
err x >>= rest = err x
ok v >>= rest = rest v

abbrev pub ◌>>◌ {ℓ} : {E B : Type ℓ} → Result E Unit → Result E B → Result E B
check >> rest = check >>= λ _. rest

-- `if bad { return err }`
abbrev pub reject_if {ℓ} : {E : Type ℓ} → Bool → E → Result E Unit
reject_if true e = err e
reject_if false e = ok tt

abbrev IsReturn {ℓ} : {E A : Type ℓ} → Result E A → Type 0
IsReturn (ok a) = Unit
IsReturn (err e) = Unit
IsReturn panic = ⊥

-- The function returns, with a value or an error: it does not panic.
pub record Returns {ℓ} {E A : Type ℓ} (m : Result E A) : Type 0 where
  is_return : IsReturn m

-- A successful bind has two successful parts.
pub >>=-eq-ok {ℓ} :
    {E A B : Type ℓ} (call : Result E A) (rest : A → Result E B) {out : B}
    → (call >>= rest) ≡ ok out
    → (v : A) × (call ≡ ok v) × (rest v ≡ ok out)
>>=-eq-ok panic rest same = cc
>>=-eq-ok (err x) rest same = cc
>>=-eq-ok (ok v) rest same = (v, refl, same)

module _ {ℓ} {E A : Type ℓ} where
  pub Returns-ok : (a : A) → Returns {E = E} (ok a)
  Returns-ok a = record { is_return = tt }

  pub Returns-err : (e : E) → Returns {A = A} (err e)
  Returns-err e = record { is_return = tt }

  pub Returns-eq_ok : (m : Result E A) (a : A) → m ≡ ok a → Returns m
  Returns-eq_ok m a e = rw e (Returns-ok a)

  -- The other way round, a value of `Returns` excludes a panic.
  pub ne_panic : (m : Result E A) → Returns m → m ≢ panic
  ne_panic (ok a) r e = cc
  ne_panic (err x) r e = cc
  ne_panic panic r e = r.is_return

module _ {ℓ} {E A B : Type ℓ} where
  pub Returns-bind :
      (m : Result E A) (f : A → Result E B)
      → Returns m
      → ((a : A) → m ≡ ok a → Returns (f a))
      → Returns (m >>= f)
  Returns-bind (ok a) f r k = k a refl
  Returns-bind (err e) f r k = record { is_return = tt }
  Returns-bind panic f r k = absurd r.is_return

pub Returns-either :
    {E A : Type 0} (b : Bool) (m n : Result E A)
    → Returns m
    → Returns n
    → Returns (if b then m else n)
Returns-either true m n h k = h
Returns-either false m n h k = k

-- Behind a guard the negation of its test is known.
pub Returns-guard {ℓ} :
    {E B : Type ℓ} (b : Bool) (e : E) (m : Result E B)
    → (b ≡ false → Returns m)
    → Returns (reject_if b e >> m)
Returns-guard true e m h = record { is_return = tt }
Returns-guard false e m h = h refl

-- Two continuations that agree on the value of `m` give the same outcome.
pub bind_congr {ℓ} :
    {E A B : Type ℓ} (m : Result E A) (f g : A → Result E B)
    → ((a : A) → m ≡ ok a → f a ≡ g a)
    → (m >>= f) ≡ (m >>= g)
bind_congr (ok a) f g h = h a refl
bind_congr (err e) f g h = refl
bind_congr panic f g h = refl
