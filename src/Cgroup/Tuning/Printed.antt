-- ===== src/Cgroup/Tuning/Printed.antt =====
-- A memory limit that a plan prints is read back by `RuntimeMemoryLimit`.
use microfat.Base.{
  ℕ, ◌-◌, ◌≤◌, ◌<◌, ◌≡◌, true, false, some, [], ◌∷◌, ◌++◌, append_assoc, arith, leb, length,
  length-append, take-append, drop-append,
}
use microfat.Text.{Bytes, codes, bytes_eq}
use microfat.Text.Laws.{bytes_eq_refl}
use microfat.Text.Number.{itoa, has_suffix, trim_suffix}
use microfat.Text.Number.Print.{parse_int-itoa, itoa-last}
use microfat.Cgroup.ByteSize.{max_int64}
use microfat.Cgroup.Environment.{strip_unit, unit_multiplier, scale_limit, runtime_memory_limit}

has_suffix-append : (s p : Bytes) → bytes_eq p p ≡ true → has_suffix (s ++ p) p ≡ true
unfolding has_suffix
has_suffix-append s p e =
    let long : leb (length p) (length (s ++ p)) ≡ true = rw length-append (ground arith) in
    let front : length (s ++ p) - length p ≡ length s = rw length-append (omega arith) in
    rw (long, front, drop-append) e

trim_suffix-append : (s p : Bytes) → has_suffix (s ++ p) p ≡ true → trim_suffix (s ++ p) p ≡ s
unfolding trim_suffix
trim_suffix-append s p e =
    let front : length (s ++ p) - length p ≡ length s = rw length-append (omega arith) in
    rw (e, front) (take-append s p)

-- A digit in front of the unit is no `i`.
no_binary_unit :
    (ds : Bytes) (d : ℕ)
    → d ≤ b'9'
    → has_suffix ((ds ++ (d ∷ [])) ++ codes "B") (codes "iB") ≡ false
unfolding has_suffix bytes_eq
no_binary_unit ds d h =
    let front : length (ds ++ (d ∷ b'B' ∷ [])) - 2 ≡ length ds = rw length-append (omega arith) in
    rw (append_assoc ds (d ∷ []) (codes "B"), front, drop-append) (ground (arith, h))

scale_limit-one : (n : ℕ) → 0 < n → n < max_int64 → scale_limit 1 (some n) ≡ n
unfolding scale_limit
scale_limit-one n h k = ground arith

-- A positive limit below the largest `int64`, printed as a plan prints it, is read back.
pub runtime_memory_limit-itoa :
    (n : ℕ) → 0 < n → n < max_int64 → runtime_memory_limit (itoa n ++ codes "B") ≡ n
unfolding runtime_memory_limit strip_unit unit_multiplier bytes_eq
runtime_memory_limit-itoa n h k =
    let (ds, d, same, low) = itoa-last n (omega (arith, k)) in
    let has : has_suffix (itoa n ++ codes "B") (codes "B") ≡ true =
      has_suffix-append (itoa n) (codes "B") (bytes_eq_refl (codes "B")) in
    let plain : has_suffix (itoa n ++ codes "B") (codes "iB") ≡ false =
      rw same (no_binary_unit ds d low) in
    rw
      (has, plain, trim_suffix-append (itoa n) (codes "B") has, parse_int-itoa n (omega (arith, k)))
      (scale_limit-one n h k)
