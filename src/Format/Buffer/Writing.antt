-- ===== src/Format/Buffer/Writing.antt =====
-- A buffer that is filled from the left: `filled done k` holds `done` and k zero bytes behind it.
use native.Mathlib.Nat.{zero-add, suc-add, sub-zero, zero-sub, suc-sub-suc}
use microfat.Base.{
  ℕ, zero, suc, ◌+◌, ◌-◌, ◌≤◌, ◌≡◌, refl, ap, [], ◌∷◌, ◌++◌, arith, length, length-append, take,
  drop, replicate, length-replicate, take-append,
}
use microfat.Text.{Bytes}
use microfat.Result.{ok}
use microfat.Format.Buffer.{store, copy_at}

abbrev pub filled : Bytes → ℕ → Bytes
filled done k = done ++ replicate k 0

drop-append_add : (xs ys : Bytes) (n : ℕ) → drop (length xs + n) (xs ++ ys) ≡ drop n ys
drop-append_add [] ys n = rw zero-add
drop-append_add (x ∷ xs) ys n = rw suc-add (drop-append_add xs ys n)

drop-replicate : (n k : ℕ) → drop n (replicate {A = ℕ} k 0) ≡ replicate (k - n) 0
drop-replicate zero k = rw sub-zero
drop-replicate (suc n) zero = rw zero-sub
drop-replicate (suc n) (suc k) = rw suc-sub-suc (drop-replicate n k)

take-all : (xs : Bytes) (n : ℕ) → length xs ≤ n → take n xs ≡ xs
take-all [] zero h = refl
take-all [] (suc n) h = refl
take-all (x ∷ xs) zero h = absurd (omega arith)
take-all (x ∷ xs) (suc n) h = ap (λ l. x ∷ l) (take-all xs n (omega arith))

length-filled : (done : Bytes) (k : ℕ) → length (filled done k) ≡ length done + k
length-filled done k = rw (length-append, length-replicate)

-- What is kept of a filled buffer on both sides of a write at the end of its filled part.
split-filled :
    (done : Bytes) (k : ℕ) (bs : Bytes)
    → take (length done) (filled done k) ++ bs ++ drop (length done + length bs) (filled done k)
      ≡ filled (done ++ bs) (k - length bs)
split-filled done k bs =
    rw (take-append, drop-append_add done (replicate k 0) (length bs), drop-replicate)

module _ {E : Type 0} (done : Bytes) (k : ℕ) (bs : Bytes) (fits : length bs ≤ k) where
  -- A write that fits goes behind what is there.
  pub store-filled :
      store {E = E} (filled done k) (length done) bs ≡ ok (filled (done ++ bs) (k - length bs))
  unfolding store
  store-filled = ground (arith, length-filled done k, split-filled done k bs)

  pub copy_at-filled :
      copy_at {E = E} (filled done k) (length done) bs ≡ ok (filled (done ++ bs) (k - length bs))
  unfolding copy_at
  copy_at-filled = ground (
    arith,
    length-filled done k,
    split-filled done k bs,
    take-all bs (length (filled done k) - length done),
  )
