-- ===== src/Cgroup/Memory/Budget.antt =====
-- The memory budget of the Go runtime, and the sum of a launcher's memory.
use microfat.Base.{
  ℕ, ◌+◌, ◌-◌, ◌/◌, ◌≤◌, ◌<◌, ◌≡◌, ◌↔◌, inl, inr, refl, ap, false, ◌&&◌, ◌||◌, Option, none, some,
  List, [], ◌∷◌, arith, ltb, All, Bool-cases, if◌then◌else◌,
}
use microfat.Words.{IsInt64, IsNonneg, is_neg, lt64, le64, add64, sub64}
use microfat.Words.Signed.{min64, div64}
use microfat.Result.{ok}
use microfat.Cgroup.ByteSize.{max_int64}
use microfat.Cgroup.Floats.{Floats}
use microfat.Cgroup.Memory.{
  default_min_headroom_bytes, default_memory_ratio, unlimited_cgroup_v1_memory_threshold, bad_ratio,
  ratio_budget, calculate_gomemlimit, add_memory, extraction_memory, retained_memory_limit,
}

-- What is kept free of a limit: the headroom, or half the limit rounded up where that is less.
abbrev pub reserve_of : ℕ → ℕ → ℕ
reserve_of limit headroom =
    let wanted = if le64 headroom 0 then default_min_headroom_bytes else headroom in
    if ltb (limit - limit / 2) wanted then limit - limit / 2 else wanted

-- What is kept free of a positive limit is positive and less than the limit, but for a limit of one byte.
reserved_eq :
    (limit headroom : ℕ)
    → IsNonneg limit
    → IsInt64 headroom
    → (min64
          (if le64 headroom 0 then default_min_headroom_bytes else headroom)
          (sub64 limit (div64 limit 2))
        ≡ reserve_of limit headroom)
      × (reserve_of limit headroom ≤ limit)
unfolding div64
reserved_eq limit headroom h i = ground arith

-- The end of the calculation, for a budget by the ratio.
settle : ℕ → ℕ → ℕ → Option ℕ
settle limit reserved rb =
    let budget = min64 rb (sub64 limit reserved) in
    if le64 limit 0 || le64 unlimited_cgroup_v1_memory_threshold limit
    then none
    else if le64 budget 0
    then none
    else some budget

settle-range :
    (limit reserved rb : ℕ) {b : ℕ}
    → IsInt64 limit
    → IsInt64 rb
    → (IsNonneg limit → reserved ≤ limit)
    → settle limit reserved rb ≡ some b
    → (0 < b) × (b + reserved ≤ limit) × (b ≤ rb) × (limit < unlimited_cgroup_v1_memory_threshold)
unfolding settle
settle-range limit reserved rb {b} i j r e =
    let positive : IsNonneg limit = ground (arith, e) in
    let lower : reserved ≤ limit = r positive in ground (arith, e)

settle-exact :
    (limit reserved rb : ℕ)
    → 0 < limit
    → limit < unlimited_cgroup_v1_memory_threshold
    → reserved ≤ limit
    → IsNonneg rb
    → settle limit reserved rb ≡ (
        if ltb 0 rb && ltb reserved limit
        then some (if ltb (limit - reserved) rb then limit - reserved else rb)
        else none)
unfolding settle
settle-exact limit reserved rb pos low r h = ground arith

free_mono :
    (a b headroom : ℕ)
    → a ≤ b
    → IsNonneg b
    → IsInt64 headroom
    → (a - reserve_of a headroom ≤ b - reserve_of b headroom) × (2 ≤ b → reserve_of b headroom < b)
free_mono a b headroom h i j = (ground arith, λ k. ground (arith, k))

settle_mono :
    (a b ra rb fa fb : ℕ) {x : ℕ}
    → a ≤ b
    → b < unlimited_cgroup_v1_memory_threshold
    → ra ≤ a
    → rb ≤ b
    → a - ra ≤ b - rb
    → fa ≤ fb
    → IsNonneg fb
    → settle a ra fa ≡ some x
    → (y : ℕ) × (settle b rb fb ≡ some y) × (x ≤ y)
unfolding settle
settle_mono a b ra rb fa fb {x} h low p q free f i e =
    let y = if ltb (b - rb) fb then b - rb else fb in
    let bounds : (0 < x) × (x ≤ y) = ground (arith, e) in (y, ground (arith, bounds), bounds.1)

module _ {F : Type 0} (fl : Floats F) (ints : (x : F) → IsInt64 (fl.to_int x)) where
  ratio_budget-IsInt64 : (limit : ℕ) (r : F) → IsInt64 (ratio_budget fl limit r)
  unfolding ratio_budget
  ratio_budget-IsInt64 limit r = ints _

  -- A budget is positive, and leaves the headroom, or half the limit rounded up where that is less; there is one
  -- only for a limit that is positive and below the threshold of an unlimited one.
  pub calculate_gomemlimit-range :
      (limit : ℕ) (ratio : F) (headroom : ℕ) {b : ℕ}
      → IsInt64 limit
      → IsInt64 headroom
      → calculate_gomemlimit fl limit ratio headroom ≡ some b
      → (0 < b)
        × (b + reserve_of limit headroom ≤ limit)
        × (limit < unlimited_cgroup_v1_memory_threshold)
  unfolding calculate_gomemlimit settle
  calculate_gomemlimit-range limit ratio headroom {b} i j e =
      let used = if bad_ratio fl ratio then default_memory_ratio fl else ratio in
      let wanted = if le64 headroom 0 then default_min_headroom_bytes else headroom in
      let reserved = min64 wanted (sub64 limit (div64 limit 2)) in
      let (pos, inside, under, low) =
        settle-range limit reserved (ratio_budget fl limit used) {b = b} i
          (ratio_budget-IsInt64 limit used)
          (λ h. let (k, l) = reserved_eq limit headroom h j in rw k l) e in
      (pos, rw (← (reserved_eq limit headroom (omega (arith, low)) j).0) inside, low)

  -- Where the product with a ratio that is accepted, rounded down, grows with the limit, so does the budget: a larger limit
  -- below the threshold has a budget where the smaller one has, and none that is less.
  pub calculate_gomemlimit_mono :
      (a b : ℕ) (ratio : F) (headroom : ℕ) {x : ℕ}
      → bad_ratio fl (default_memory_ratio fl) ≡ false
      → ((r : F)
          → bad_ratio fl r ≡ false
          → (ratio_budget fl a r ≤ ratio_budget fl b r) × IsNonneg (ratio_budget fl b r))
      → a ≤ b
      → b < unlimited_cgroup_v1_memory_threshold
      → IsInt64 headroom
      → calculate_gomemlimit fl a ratio headroom ≡ some x
      → (y : ℕ) × (calculate_gomemlimit fl b ratio headroom ≡ some y) × (x ≤ y)
  unfolding calculate_gomemlimit settle
  calculate_gomemlimit_mono a b ratio headroom sane grows h low j e =
      let (ka, la) = reserved_eq a headroom (omega (arith, h, low)) j in
      let (kb, lb) = reserved_eq b headroom (omega (arith, low)) j in
      let used = if bad_ratio fl ratio then default_memory_ratio fl else ratio in
      let good : bad_ratio fl used ≡ false = elim (Bool-cases (bad_ratio fl ratio)) [
        | inl bad ↦ rw bad sane
        | inr fine ↦ rw (fine, fine) refl
      ] in
      settle_mono a b _ _ _ _ h low (rw ka la) (rw kb lb)
        (rw (ka, kb) (free_mono a b headroom h (omega (arith, low)) j).0) (grows used good).0
        (grows used good).1 e

-- The sum of the numbers, as long as each is at least 0 and the sum is in range.
abbrev pub sum : List ℕ → ℕ
sum [] = 0
sum (n ∷ ns) = n + sum ns

add_memory_exact :
    (total : ℕ) (values : List ℕ) (n : ℕ)
    → total ≤ max_int64
    → All IsInt64 values
    → (add_memory total values ≡ ok n)
      ↔ (All IsNonneg values × (total + sum values ≤ max_int64) × (n ≡ total + sum values))
unfolding add_memory
add_memory_exact total [] n h i = (
  λ e. let same : total ≡ n = ground (arith, e) in (tt, omega (arith, h), omega (arith, same)),
  λ (a, b, c). ap ok (omega (arith, c)),
)
add_memory_exact total (v ∷ vs) n h (i, is) =
    elim (Bool-cases (is_neg v || lt64 (sub64 max_int64 total) v)) [
      | inl bad ↦ (
        λ e. absurd (ground (arith, e, bad)),
        λ ((a, rs), b, c). absurd (ground (arith, bad, a, b, h)),
      )
      | inr good ↦
          let (low, e, r) : IsNonneg v × (add64 total v ≡ total + v) × (total + v ≤ max_int64) =
            ground (arith, good, h, i) in
          let rest = add_memory_exact (total + v) vs n r is in
          rw (good, e)
            (
              λ k. let (a, b, c) = rest.0 k in ((low, a), omega (arith, b), omega (arith, c)),
              λ ((a, rs), b, c). rest.1 (rs, omega (arith, b), omega (arith, c)),
            )
    ]

-- The memory of an extraction is the sum of its four parts, exactly where each is at least 0 and the sum is in
-- the range of `int64`.
pub extraction_memory_iff :
    (payload dictionary decoder reserve n : ℕ)
    → All IsInt64 (payload ∷ dictionary ∷ decoder ∷ reserve ∷ [])
    → (extraction_memory payload dictionary decoder reserve ≡ ok n) ↔ (
        All IsNonneg (payload ∷ dictionary ∷ decoder ∷ reserve ∷ [])
        × (n ≡ payload + dictionary + decoder + reserve)
        × (n ≤ max_int64))
unfolding extraction_memory
extraction_memory_iff payload dictionary decoder reserve n h =
    let both =
      add_memory_exact 0 (payload ∷ dictionary ∷ decoder ∷ reserve ∷ []) n (omega arith) h in
    (
      λ e. let (a, b, c) = both.0 e in (a, omega (arith, c), omega (arith, b, c)),
      λ (a, b, c). both.1 (a, omega (arith, b, c), omega (arith, b)),
    )

-- What is left of a limit when the retained bytes are taken off: nothing where they are negative or as many.
pub retained_memory_limit-exact :
    (limit retained : ℕ)
    → IsNonneg limit
    → IsInt64 retained
    → (retained_memory_limit limit retained ≤ limit)
      × (0 < retained_memory_limit limit retained
          → (retained_memory_limit limit retained + retained ≡ limit))
unfolding retained_memory_limit
retained_memory_limit-exact limit retained h i = (ground arith, λ k. ground (arith, k))
