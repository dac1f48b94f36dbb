-- ===== src/Format/Buffer/Reading.antt =====
-- Reading a buffer of which the rest from an offset on is known.
use microfat.Base.{
  ℕ, ◌+◌, ◌-◌, ◌≤◌, ◌<◌, ◌≡◌, refl, sym, ap, ◌∙◌, [], ◌∷◌, ◌++◌, append_assoc, arith, length,
  length-append, take, drop, take-append, drop-append, get_elem?-append, get_elem?-in_range,
}
use microfat.Text.{Bytes}
use microfat.Result.{ok}
use microfat.Format.Buffer.{index, slice}

add-sub_self : (a b : ℕ) → a + b - a ≡ b
add-sub_self a b = omega arith

-- `rest` is what `buf` holds from `at` on.
pub record At (buf : Bytes) (at : ℕ) (rest : Bytes) : Type 0 where
  pub before : Bytes
  pub split : buf ≡ before ++ rest
  pub here : length before ≡ at

pub At-start : (buf : Bytes) → At buf 0 buf
At-start buf = record { before = []; split = refl; here = refl }

module _ {buf : Bytes} {at : ℕ} where
  pub At-step : (s rest : Bytes) → At buf at (s ++ rest) → At buf (at + length s) rest
  At-step s rest h = record {
    before = h.before ++ s;
    split = h.split ∙ sym (append_assoc h.before s rest);
    here = omega (arith, length-append h.before s, h.here);
  }

  pub length-At : (rest : Bytes) → At buf at rest → length buf ≡ at + length rest
  length-At rest h = omega (arith, ap length h.split, length-append h.before rest, h.here)

  pub index-At :
      {E : Type 0} (b : ℕ) (rest : Bytes) → At buf at (b ∷ rest) → index {E = E} buf at ≡ ok b
  unfolding index
  index-At b rest h = rw (h.split, ← h.here, index, get_elem?-append)

  pub slice-At :
      {E : Type 0} (s rest : Bytes)
      → At buf at (s ++ rest)
      → slice {E = E} buf at (at + length s) ≡ ok s
  unfolding slice
  slice-At s rest h =
      rw (h.split, ← h.here)
        (ground (
          arith,
          add-sub_self (length h.before) (length s),
          length-append h.before (s ++ rest),
          length-append s rest,
          drop-append h.before (s ++ rest),
          take-append s rest,
        ))

-- An index and a slice in range have a value.
pub index-in_range :
    {E : Type 0} (buf : Bytes) (i : ℕ) → i < length buf → (b : ℕ) × (index {E = E} buf i ≡ ok b)
unfolding index
index-in_range buf i h = let (b, e) = get_elem?-in_range buf i h in (b, rw (index, e))

pub slice-in_range :
    {E : Type 0} (buf : Bytes) (i j : ℕ)
    → i ≤ j
    → j ≤ length buf
    → slice {E = E} buf i j ≡ ok (take (j - i) (drop i buf))
unfolding slice
slice-in_range buf i j h k = ground arith
