-- ===== src/Cgroup/Tuning/Plan.antt =====
-- The whole plan: it stays within the limits it is made from, and its parts agree.
use microfat.Base.{
  ℕ, ◌+◌, ◌-◌, ◌≤◌, ◌<◌, ◌≡◌, ◌↔◌, inl, inr, refl, ap, ◌∙◌, true, Option, none, some, ◌++◌, arith,
  Bool-cases, Option-cases, if◌then◌else◌,
}
use microfat.Words.{IsInt64, IsNonneg, le64, lt64}
use microfat.Text.{Bytes, codes}
use microfat.Text.Number.{itoa}
use microfat.Cgroup.Floats.{Floats}
use microfat.Cgroup.Memory.{
  Limits, default_min_headroom_bytes, unlimited_cgroup_v1_memory_threshold, effective_memory_limit,
  calculate_gomemlimit, retained_memory_limit,
}
use microfat.Cgroup.Memory.Effective.{IsValid, bytes_of, ceiling, least-IsNonneg}
use microfat.Cgroup.Memory.Budget.{
  reserve_of, calculate_gomemlimit-range, retained_memory_limit-exact,
}
use microfat.Cgroup.Tuning.{
  TuningPlan, gc_profile_batch_etl, default_batch_etl_gogc, resolve_batch_gogc, set_gogc, set_gogc?,
  set_gomaxprocs, set_gomaxprocs?, start_plan, set_gomemlimit, zero_limit, plan_memory, plan_cpus,
  apply_profile_gogc, calculate_adaptive_gogc, calculate_gomaxprocs, resolve_tuning_ratio,
  resolve_tuning_plan_with_profile,
}
use microfat.Cgroup.Tuning.Gogc.{IsClamping, apply_profile_gogc-off_iff}

module _ {F : Type 0} where
  -- A budget within the limits, with the headroom that was asked for, or no budget.
  pub record IsWithin (limits : Limits F) (headroom : ℕ) (p : TuningPlan F) : Type 0 where
    pub fits :
        0 < p.gomemlimit_bytes
        → (p.gomemlimit_bytes
              + reserve_of (ceiling limits - limits.retained_executable_bytes) headroom
              + limits.retained_executable_bytes
            ≤ ceiling limits)
    pub finite : p.gomemlimit_bytes < unlimited_cgroup_v1_memory_threshold
    pub printed : 0 < p.gomemlimit_bytes → p.gomemlimit_str ≡ itoa p.gomemlimit_bytes ++ codes "B"

module _ {F : Type 0} (fl : Floats F) where
  -- The parts on processors and on the collector keep the budget and its text.
  abbrev SameMemory : TuningPlan F → TuningPlan F → Type 0
  SameMemory p q = (p.gomemlimit_bytes ≡ q.gomemlimit_bytes) × (p.gomemlimit_str ≡ q.gomemlimit_str)

  set_gogc?-SameMemory : (o : Option ℕ) (p : TuningPlan F) → SameMemory (set_gogc? o p) p
  unfolding set_gogc? set_gogc
  set_gogc?-SameMemory none p = (refl, refl)
  set_gogc?-SameMemory (some n) p = (refl, refl)

  -- The part on processors keeps the collector too.
  abbrev SameRest : TuningPlan F → TuningPlan F → Type 0
  SameRest p q = SameMemory p q × (p.gogc ≡ q.gogc) × (p.gc_profile ≡ q.gc_profile)

  set_gomaxprocs?-SameRest : (o : Option ℕ) (p : TuningPlan F) → SameRest (set_gomaxprocs? o p) p
  unfolding set_gomaxprocs? set_gomaxprocs
  set_gomaxprocs?-SameRest none p = ((refl, refl), refl, refl)
  set_gomaxprocs?-SameRest (some n) p = ((refl, refl), refl, refl)

  plan_cpus-SameRest : (limits : Limits F) (p : TuningPlan F) → SameRest (plan_cpus fl limits p) p
  unfolding plan_cpus set_gomaxprocs
  plan_cpus-SameRest limits p =
      let ((a, b), c, d) = set_gomaxprocs?-SameRest (calculate_gomaxprocs fl limits.cpu_quota) p in
      ((ground (arith, a), ground (arith, b)), ground (arith, c), ground (arith, d))

  apply_profile_gogc-SameMemory :
      (profile : Bytes) (live : ℕ) (p : TuningPlan F)
      → SameMemory (apply_profile_gogc fl profile live p) p
  unfolding apply_profile_gogc resolve_batch_gogc set_gogc
  apply_profile_gogc-SameMemory profile live p =
      let (a, b) = set_gogc?-SameMemory (calculate_adaptive_gogc fl p.gomemlimit_bytes live) p in
      (ground (arith, a), ground (arith, b))

  -- The budget that the part on memory sets.
  abbrev budget_of : Limits F → F → ℕ → Option ℕ
  budget_of limits ratio headroom =
      let left =
        retained_memory_limit (effective_memory_limit limits).0 limits.retained_executable_bytes in
      if lt64 0 left then calculate_gomemlimit fl left ratio headroom else none

  -- A plan with a budget and its text, and otherwise as the one before.
  abbrev Budgeted : Option ℕ → TuningPlan F → TuningPlan F → Type 0
  Budgeted o p q =
      (q.gomemlimit_bytes ≡ bytes_of o)
      × (0 < q.gomemlimit_bytes → q.gomemlimit_str ≡ itoa q.gomemlimit_bytes ++ codes "B")
      × (q.gogc ≡ p.gogc)
      × (q.gc_profile ≡ p.gc_profile)

  set_gomemlimit-Budgeted :
      (limits : Limits F) (o : Option ℕ) (p : TuningPlan F)
      → p.gomemlimit_bytes ≡ 0
      → Budgeted o p (set_gomemlimit limits o p)
  unfolding set_gomemlimit
  set_gomemlimit-Budgeted limits none p z = (z, λ h. absurd (omega (arith, h, z)), refl, refl)
  set_gomemlimit-Budgeted limits (some b) p z = (refl, λ h. refl, refl, refl)

  zero_limit-same :
      (limits : Limits F) (p : TuningPlan F)
      → ((zero_limit limits p).gomemlimit_bytes ≡ p.gomemlimit_bytes)
        × ((zero_limit limits p).gogc ≡ p.gogc)
        × ((zero_limit limits p).gc_profile ≡ p.gc_profile)
  unfolding zero_limit
  zero_limit-same limits p = (ground arith, ground arith, ground arith)

  plan_memory-Budgeted :
      (limits : Limits F) (ratio : F) (headroom : ℕ) (p : TuningPlan F)
      → p.gomemlimit_bytes ≡ 0
      → Budgeted (budget_of limits ratio headroom) p (plan_memory fl limits ratio headroom p)
  unfolding plan_memory
  plan_memory-Budgeted limits ratio headroom p z =
      let (a, b, c) = zero_limit-same limits p in
      let left =
        retained_memory_limit (effective_memory_limit limits).0 limits.retained_executable_bytes in
      elim (Bool-cases (lt64 0 left)) [
        | inl pos ↦
            let (d, e, f, g) =
              set_gomemlimit-Budgeted limits (calculate_gomemlimit fl left ratio headroom)
                (zero_limit limits p) (a ∙ z) in
            rw pos (d, e, f ∙ b, g ∙ c)
        | inr zero ↦ rw zero (a ∙ z, λ h. absurd (omega (arith, h, a, z)), b, c)
      ]

  -- A budget of a limit fits in what the retained bytes leave of it.
  left-fits :
      ((x : F) → IsInt64 (fl.to_int x))
      → (limit retained : ℕ) (ratio : F) (headroom b : ℕ) → IsNonneg limit
      → IsInt64 retained
      → IsInt64 headroom
      → (if lt64 0 (retained_memory_limit limit retained)
          then calculate_gomemlimit fl (retained_memory_limit limit retained) ratio headroom
          else none)
        ≡ some b
      → (0 < b)
        × (b + reserve_of (limit - retained) headroom + retained ≤ limit)
        × (b < unlimited_cgroup_v1_memory_threshold)
  left-fits ints limit retained ratio headroom b h i j e =
      let (under, exact) = retained_memory_limit-exact limit retained h i in
      let pos : lt64 0 (retained_memory_limit limit retained) ≡ true = ground (arith, e) in
      let calc : calculate_gomemlimit fl (retained_memory_limit limit retained) ratio headroom
          ≡ some b =
        rw pos at e in
      let sum = exact (ground (arith, pos, under, h)) in
      let same : limit - retained ≡ retained_memory_limit limit retained = omega (arith, sum) in
      let (a, c, d) =
        calculate_gomemlimit-range fl ints (retained_memory_limit limit retained) ratio headroom
          (omega (arith, under, h)) j calc in
      (a, rw same (omega (arith, c, sum)), omega (arith, a, c, under, d))

  plan_memory-IsWithin :
      ((x : F) → IsInt64 (fl.to_int x))
      → (limits : Limits F) (ratio : F) (headroom : ℕ) (p : TuningPlan F) → IsValid limits
      → IsInt64 limits.retained_executable_bytes
      → IsInt64 headroom
      → p.gomemlimit_bytes ≡ 0
      → IsWithin limits headroom (plan_memory fl limits ratio headroom p)
  plan_memory-IsWithin ints limits ratio headroom p v i j z =
      let (a, b, c, d) = plan_memory-Budgeted limits ratio headroom p z in
      elim (Option-cases (budget_of limits ratio headroom)) [
        | inl e ↦
            let zero : (plan_memory fl limits ratio headroom p).gomemlimit_bytes ≡ 0 =
              a ∙ ap bytes_of e in
            record {
              fits = λ h. absurd (omega (arith, h, zero));
              finite = rw zero (omega arith);
              printed = b;
            }
        | inr (n, e) ↦
            let is : (plan_memory fl limits ratio headroom p).gomemlimit_bytes ≡ n =
              a ∙ ap bytes_of e in
            let (ceil, h) = least-IsNonneg limits v in
            let (pos, fits, low) =
              left-fits ints (ceiling limits) limits.retained_executable_bytes ratio headroom n h i
                j (rw ceil at e) in
            record { fits = λ k. rw is fits; finite = rw is low; printed = b }
      ]

  IsWithin-same :
      (limits : Limits F) (headroom : ℕ) (p q : TuningPlan F)
      → SameMemory q p
      → IsWithin limits headroom p
      → IsWithin limits headroom q
  IsWithin-same limits headroom p q (a, b) w = record {
    fits = rw a w.fits;
    finite = rw a w.finite;
    printed = rw (a, b) w.printed;
  }

  IsWithin-wanted :
      (limits : Limits F) (headroom : ℕ) (p : TuningPlan F)
      → IsWithin limits (if le64 headroom 0 then default_min_headroom_bytes else headroom) p
      → IsWithin limits headroom p
  IsWithin-wanted limits headroom p w =
      let same : (limit : ℕ)
          → reserve_of limit (if le64 headroom 0 then default_min_headroom_bytes else headroom)
            ≡ reserve_of limit headroom =
        λ limit. ground arith in
      record { fits = rw (← same) w.fits; finite = w.finite; printed = w.printed }

  -- The plan made from valid limits is within them: a budget, the headroom that is kept free and the bytes that
  -- are retained together are at most the least of the finite bounds; and the text of the budget is its number.
  pub resolve_tuning_plan_with_profile-IsWithin :
      ((x : F) → IsInt64 (fl.to_int x))
      → (limits : Limits F) (env : Bytes) (ratio : F) (headroom : ℕ) (profile : Bytes) (live : ℕ)
      → IsValid limits
      → IsInt64 limits.retained_executable_bytes
      → IsInt64 headroom
      → IsWithin limits headroom
          (resolve_tuning_plan_with_profile fl limits env ratio headroom profile live)
  unfolding resolve_tuning_plan_with_profile
  resolve_tuning_plan_with_profile-IsWithin ints limits env ratio headroom profile live v i j =
      let used = resolve_tuning_ratio fl env ratio profile in
      let wanted = if le64 headroom 0 then default_min_headroom_bytes else headroom in
      let memory = plan_memory fl limits used wanted (start_plan used profile) in
      let cpus = plan_cpus fl limits memory in
      IsWithin-same limits headroom cpus _ (apply_profile_gogc-SameMemory profile live cpus) (
        IsWithin-same limits headroom memory cpus (plan_cpus-SameRest limits memory).0 (
          IsWithin-wanted limits headroom memory (
            plan_memory-IsWithin ints limits used wanted (start_plan used profile) v i
              (ground (arith, j)) refl)))

  -- The plan turns the garbage collector off exactly where its profile is the batch profile and it has a budget.
  pub resolve_tuning_plan_with_profile-off_iff :
      ((x : F) → IsInt64 (fl.to_int x))
      → IsClamping fl
      → (limits : Limits F) (env : Bytes) (ratio : F) (headroom : ℕ) (profile : Bytes) (live : ℕ)
      → IsValid limits
      → IsInt64 limits.retained_executable_bytes
      → IsInt64 headroom
      → IsInt64 live
      → let plan = resolve_tuning_plan_with_profile fl limits env ratio headroom profile live in
        (plan.gogc ≡ default_batch_etl_gogc)
        ↔ ((profile ≡ gc_profile_batch_etl) × (0 < plan.gomemlimit_bytes))
  unfolding resolve_tuning_plan_with_profile
  resolve_tuning_plan_with_profile-off_iff ints clamping limits env ratio headroom profile live v i
        j k =
      let used = resolve_tuning_ratio fl env ratio profile in
      let wanted = if le64 headroom 0 then default_min_headroom_bytes else headroom in
      let memory = plan_memory fl limits used wanted (start_plan used profile) in
      let cpus = plan_cpus fl limits memory in
      let (a, b, c, d) = plan_memory-Budgeted limits used wanted (start_plan used profile) refl in
      let within =
        plan_memory-IsWithin ints limits used wanted (start_plan used profile) v i
          (ground (arith, j)) refl in
      let ((e, _), f, g) = plan_cpus-SameRest limits memory in
      let low : cpus.gomemlimit_bytes < unlimited_cgroup_v1_memory_threshold = rw e within.finite in
      let both =
        apply_profile_gogc-off_iff fl clamping profile live cpus (omega (arith, low)) k (f ∙ c)
          (g ∙ d) in
      rw (apply_profile_gogc-SameMemory profile live cpus).0
        (λ h. let (x, y, z) = both.0 h in (x, y), λ (x, y). both.1 (x, y, omega (arith, low)))
