-- ===== src/Cgroup/Tuning.antt =====
-- The settings of the Go runtime: `TuningPlan` and the functions on it in internal/cgroup/cgroup.go,
-- batch_gc.go and cpu_policy.go. An `int` and an `int64` are their bit patterns.
pub mod Gogc
pub mod Plan
pub mod Read
pub mod Printed
use microfat.Cgroup.Environment.{
  cpu_policy_static, cpu_policy_native, first_policy, resolve_cpu_policy, unit_multiplier,
  strip_unit, scale_limit, runtime_memory_limit,
}
use microfat.Base.{
  ℕ, ◌+◌, ◌-◌, ◌*◌, ◌/◌, ◌%◌, ◌^◌, Bool, true, false, ◌&&◌, ◌||◌, not, Option, none, some, List, [],
  ◌∷◌, ◌++◌, ltb, ◌==◌, if◌then◌else◌, suc, zero,
}
use microfat.Words.{le64, lt64}
use microfat.Words.Signed.{max64}
use microfat.Text.{Bytes, codes, bytes_eq, is_empty, to_lower, trim_space}
use microfat.Text.Number.{itoa, parse_int, has_suffix, trim_suffix}
use microfat.Result.{Result, ok, err}
use microfat.Microarch.Level.{switch}
use microfat.Cgroup.Floats.{Floats}
use microfat.Cgroup.ByteSize.{max_int64}
use microfat.Cgroup.Memory.{
  Limits, minimum_cpus, default_min_headroom_bytes, limit_constraint_max, effective_memory_limit,
  constraining_memory_limit, default_memory_ratio, bad_ratio, calculate_gomemlimit,
  retained_memory_limit,
}

abbrev pub gc_profile_default : Bytes
gc_profile_default = codes "default"

abbrev pub gc_profile_latency_critical : Bytes
gc_profile_latency_critical = codes "latency_critical"

abbrev pub gc_profile_memory_constrained : Bytes
gc_profile_memory_constrained = codes "memory_constrained"

abbrev pub gc_profile_batch_etl : Bytes
gc_profile_batch_etl = codes "batch_etl"

abbrev pub gc_profile_adaptive : Bytes
gc_profile_adaptive = codes "adaptive"

pub data ProfileError : Type 0 where
  unknown_profile : ProfileError

-- `strings.ReplaceAll(norm, "-", "_")`
unfoldable pub underscores : Bytes → Bytes
underscores [] = []
underscores (c ∷ s) = (if c == b'-' then b'_' else c) ∷ underscores s

unfoldable pub parse_gc_profile : Bytes → Result ProfileError Bytes
parse_gc_profile s =
    switch (underscores (to_lower (trim_space s)))
      (([], ok gc_profile_default)
        ∷ (gc_profile_default, ok gc_profile_default)
        ∷ (gc_profile_latency_critical, ok gc_profile_latency_critical)
        ∷ (codes "latency", ok gc_profile_latency_critical)
        ∷ (gc_profile_memory_constrained, ok gc_profile_memory_constrained)
        ∷ (codes "memory", ok gc_profile_memory_constrained)
        ∷ (gc_profile_batch_etl, ok gc_profile_batch_etl)
        ∷ (codes "batch", ok gc_profile_batch_etl)
        ∷ (codes "etl", ok gc_profile_batch_etl)
        ∷ (gc_profile_adaptive, ok gc_profile_adaptive)
        ∷ (codes "dynamic", ok gc_profile_adaptive)
        ∷ [])
      (err unknown_profile)

pub record TuningPlan (F : Type 0) : Type 0 where
  pub gomemlimit_bytes : ℕ
  pub gomemlimit_str : Bytes
  pub constraining_limit : Bytes
  pub gomaxprocs : ℕ
  pub gomaxprocs_str : Bytes
  pub applied_ratio : F
  pub gogc : ℕ
  pub gogc_str : Bytes
  pub gc_profile : Bytes
  pub gogc_applied : Bool
  pub gogc_skipped_reason : Bytes

-- The bit pattern of -1.
abbrev pub default_batch_etl_gogc : ℕ
default_batch_etl_gogc = 2 ^ 64 - 1

abbrev pub skipped_reason : Bytes
skipped_reason = codes "batch_etl GOGC tuning skipped (no finite effective memory ceiling)"

module _ {F : Type 0} where
  unfoldable pub resolve_batch_gogc : ℕ → TuningPlan F → TuningPlan F
  resolve_batch_gogc memory_limit p =
      if not (bytes_eq p.gc_profile gc_profile_batch_etl)
      then p
      else if le64 memory_limit 0 || memory_limit == max_int64
      then record p {
        gogc = 0;
        gogc_str = [];
        gogc_applied = false;
        gogc_skipped_reason = skipped_reason;
      }
      else record p {
        gogc = default_batch_etl_gogc;
        gogc_str = codes "off";
        gogc_applied = true;
        gogc_skipped_reason = [];
      }

  unfoldable pub apply_cpu_policy : Bytes → TuningPlan F → TuningPlan F
  apply_cpu_policy policy p =
      if bytes_eq policy cpu_policy_native
      then record p { gomaxprocs = 0; gomaxprocs_str = [] }
      else p

  -- The three assignments that set a value of GOGC.
  unfoldable pub set_gogc : ℕ → TuningPlan F → TuningPlan F
  set_gogc value p = record p { gogc = value; gogc_str = itoa value; gogc_applied = true }

  unfoldable pub set_gomaxprocs : ℕ → TuningPlan F → TuningPlan F
  set_gomaxprocs value p = record p { gomaxprocs = value; gomaxprocs_str = itoa value }

  unfoldable pub set_gogc? : Option ℕ → TuningPlan F → TuningPlan F
  set_gogc? none p = p
  set_gogc? (some gogc) p = set_gogc gogc p

  abbrev pub start_plan : F → Bytes → TuningPlan F
  start_plan ratio profile = record {
    gomemlimit_bytes = 0;
    gomemlimit_str = [];
    constraining_limit = [];
    gomaxprocs = 0;
    gomaxprocs_str = [];
    applied_ratio = ratio;
    gogc = 0;
    gogc_str = [];
    gc_profile = profile;
    gogc_applied = false;
    gogc_skipped_reason = [];
  }

  -- The settings for a budget, where there is one.
  unfoldable pub set_gomemlimit : Limits F → Option ℕ → TuningPlan F → TuningPlan F
  set_gomemlimit limits none p = p
  set_gomemlimit limits (some mem_limit) p =
      let constraint = constraining_memory_limit limits in
      record p {
        gomemlimit_bytes = mem_limit;
        gomemlimit_str = itoa mem_limit ++ codes "B";
        constraining_limit = if is_empty constraint then limit_constraint_max else constraint;
      }

  unfoldable pub set_gomaxprocs? : Option ℕ → TuningPlan F → TuningPlan F
  set_gomaxprocs? none p = p
  set_gomaxprocs? (some cpus) p = set_gomaxprocs cpus p

  -- `finite && effectiveLimit == 0`
  unfoldable pub zero_limit : Limits F → TuningPlan F → TuningPlan F
  zero_limit limits p =
      let (effective, finite) = effective_memory_limit limits in
      if finite && effective == 0
      then record p {
        gomemlimit_str = codes "0B";
        constraining_limit = constraining_memory_limit limits;
      }
      else p

  module _ (fl : Floats F) where
    -- The value, or `none` for `(0, false)`, here and for GOGC below.
    unfoldable pub calculate_gomaxprocs : F → Option ℕ
    calculate_gomaxprocs quota =
        if fl.le quota (fl.of_int 0) || fl.is_nan quota || fl.is_inf quota
        then none
        else some (max64 (fl.to_int (fl.floor quota)) minimum_cpus)

    -- `gogcFloat` before and after the two limits.
    unfoldable pub raw_gogc : ℕ → ℕ → F
    raw_gogc headroom live =
        fl.mul (fl.sub (fl.div (fl.of_int headroom) (fl.of_int live)) (fl.of_int 1)) (fl.of_int 100)

    unfoldable pub clamp_gogc : F → F
    clamp_gogc raw =
        let low = if fl.lt raw (fl.of_int 10) then fl.of_int 10 else raw in
        if fl.lt (fl.of_int 100) low then fl.of_int 100 else low

    unfoldable pub calculate_adaptive_gogc : ℕ → ℕ → Option ℕ
    calculate_adaptive_gogc available_headroom_bytes live_heap_bytes =
        if le64 available_headroom_bytes 0 || le64 live_heap_bytes 0
        then none
        else some
            (fl.to_int (fl.round (clamp_gogc (raw_gogc available_headroom_bytes live_heap_bytes))))

    -- A ratio of the environment, where it is one.
    unfoldable pub override_ratio : F → Option F → F
    override_ratio ratio none = ratio
    override_ratio ratio (some parsed) =
        if not (fl.is_nan parsed)
          && not (fl.is_inf parsed)
          && fl.lt (fl.of_int 0) parsed
          && fl.le parsed (fl.of_int 1)
        then parsed
        else ratio

    unfoldable pub resolve_tuning_ratio : Bytes → F → Bytes → F
    resolve_tuning_ratio env_ratio default_ratio profile =
        let chosen =
          if bytes_eq profile gc_profile_memory_constrained
            && fl.eq default_ratio (default_memory_ratio fl)
          then fl.ratio 80 100
          else default_ratio in
        let ratio = if bad_ratio fl chosen then default_memory_ratio fl else chosen in
        let trimmed = trim_space env_ratio in
        if is_empty trimmed then ratio else override_ratio ratio (fl.parse_float trimmed)

    unfoldable pub apply_profile_gogc : Bytes → ℕ → TuningPlan F → TuningPlan F
    apply_profile_gogc profile live_heap_estimate_bytes p =
        if bytes_eq profile gc_profile_latency_critical
        then set_gogc 75 p
        else if bytes_eq profile gc_profile_memory_constrained
        then set_gogc 40 p
        else if bytes_eq profile gc_profile_batch_etl
        then resolve_batch_gogc p.gomemlimit_bytes p
        else if bytes_eq profile gc_profile_adaptive
            && lt64 0 live_heap_estimate_bytes
            && lt64 0 p.gomemlimit_bytes
        then set_gogc? (calculate_adaptive_gogc p.gomemlimit_bytes live_heap_estimate_bytes) p
        else p

    -- The part of the plan on memory: a limit of zero bytes, and then the budget of what a limit leaves.
    unfoldable pub plan_memory : Limits F → F → ℕ → TuningPlan F → TuningPlan F
    plan_memory limits ratio headroom p =
        let left =
          retained_memory_limit (effective_memory_limit limits).0
            limits.retained_executable_bytes in
        if lt64 0 left
        then set_gomemlimit limits (calculate_gomemlimit fl left ratio headroom)
            (zero_limit limits p)
        else zero_limit limits p

    -- The part of the plan on processors.
    unfoldable pub plan_cpus : Limits F → TuningPlan F → TuningPlan F
    plan_cpus limits p =
        if lt64 0 limits.cpus
        then set_gomaxprocs limits.cpus p
        else if fl.lt (fl.of_int 0) limits.cpu_quota
        then set_gomaxprocs? (calculate_gomaxprocs limits.cpu_quota) p
        else p

    unfoldable pub resolve_tuning_plan_with_profile :
        Limits F → Bytes → F → ℕ → Bytes → ℕ → TuningPlan F
    resolve_tuning_plan_with_profile limits env_ratio default_ratio min_headroom_bytes profile
          live_heap =
        let ratio = resolve_tuning_ratio env_ratio default_ratio profile in
        let headroom =
          if le64 min_headroom_bytes 0 then default_min_headroom_bytes else min_headroom_bytes in
        apply_profile_gogc profile live_heap
          (plan_cpus limits (plan_memory limits ratio headroom (start_plan ratio profile)))

    unfoldable pub resolve_tuning_plan : Limits F → Bytes → F → ℕ → TuningPlan F
    resolve_tuning_plan limits env_ratio default_ratio min_headroom_bytes =
        resolve_tuning_plan_with_profile limits env_ratio default_ratio min_headroom_bytes
          gc_profile_default 0
