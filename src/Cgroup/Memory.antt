-- ===== src/Cgroup/Memory.antt =====
-- Memory limits of internal/cgroup: the type `Limits` and its methods, `CalculateEffectiveMemoryLimit`,
-- `DetermineConstrainingLimit` and `CalculateGOMEMLIMIT` of cgroup.go, and memory.go. An `int64` is
-- its bit pattern.
pub mod Effective
pub mod Budget
use microfat.Base.{
  ℕ, ◌+◌, ◌-◌, ◌*◌, ◌/◌, ◌^◌, Bool, true, false, ◌&&◌, ◌||◌, not, Option, none, some, List, [], ◌∷◌,
  ◌==◌, if◌then◌else◌,
}
use microfat.Words.{is_neg, lt64, le64, add64, sub64}
use microfat.Words.Signed.{min64, div64}
use microfat.Text.{Bytes, codes}
use microfat.Result.{Result, ok, err}
use microfat.Cgroup.Floats.{Floats}
use microfat.Cgroup.ByteSize.{max_int64}

abbrev pub default_min_headroom_bytes : ℕ
default_min_headroom_bytes = 64 * 1024 * 1024

abbrev pub minimum_cpus : ℕ
minimum_cpus = 1

abbrev pub unlimited_cgroup_v1_memory_threshold : ℕ
unlimited_cgroup_v1_memory_threshold = 1024 * 1024 * 1024 * 1024 * 1024

abbrev pub limit_constraint_none : Bytes
limit_constraint_none = codes ""

abbrev pub limit_constraint_max : Bytes
limit_constraint_max = codes "max"

abbrev pub limit_constraint_high : Bytes
limit_constraint_high = codes "high"

pub record Limits (F : Type 0) : Type 0 where
  pub retained_executable_bytes : ℕ
  pub cgroup_version : ℕ
  pub memory_limit_bytes : ℕ
  pub memory_high_bytes : ℕ
  pub effective_memory_limit_bytes : ℕ
  pub memory_limit_finite : Bool
  pub memory_high_finite : Bool
  pub cpu_quota : F
  pub cpus : ℕ

unfoldable pub calculate_effective_memory_limit : ℕ → ℕ → ℕ
calculate_effective_memory_limit max_bytes high_bytes =
    if lt64 0 max_bytes && lt64 0 high_bytes
    then if lt64 high_bytes max_bytes then high_bytes else max_bytes
    else if lt64 0 high_bytes
    then high_bytes
    else if lt64 0 max_bytes
    then max_bytes
    else 0

unfoldable pub determine_constraining_limit : ℕ → ℕ → Bytes
determine_constraining_limit max_bytes high_bytes =
    if lt64 0 max_bytes && lt64 0 high_bytes
    then if lt64 high_bytes max_bytes then limit_constraint_high else limit_constraint_max
    else if lt64 0 high_bytes
    then limit_constraint_high
    else if lt64 0 max_bytes
    then limit_constraint_max
    else limit_constraint_none

module _ {F : Type 0} where
  unfoldable pub has_memory_limit : Limits F → Bool
  has_memory_limit l = l.memory_limit_finite || lt64 0 l.memory_limit_bytes

  unfoldable pub has_memory_high : Limits F → Bool
  has_memory_high l = l.memory_high_finite || lt64 0 l.memory_high_bytes

  unfoldable pub effective_memory_limit : Limits F → ℕ × Bool
  effective_memory_limit l =
      if has_memory_limit l && l.memory_limit_bytes == 0
        || has_memory_high l && l.memory_high_bytes == 0
      then (0, true)
      else if lt64 0 l.effective_memory_limit_bytes
      then (l.effective_memory_limit_bytes, true)
      else (
        calculate_effective_memory_limit l.memory_limit_bytes l.memory_high_bytes,
        has_memory_limit l || has_memory_high l,
      )

  unfoldable pub constraining_memory_limit : Limits F → Bytes
  constraining_memory_limit l =
      if has_memory_high l
        && (not (has_memory_limit l) || lt64 l.memory_high_bytes l.memory_limit_bytes)
      then limit_constraint_high
      else if has_memory_limit l
      then limit_constraint_max
      else limit_constraint_none

  module _ (fl : Floats F) where
    abbrev pub default_memory_ratio : F
    default_memory_ratio = fl.ratio 90 100

    -- `math.IsNaN(ratio) || math.IsInf(ratio, 0) || ratio <= 0 || ratio > 1.0`
    unfoldable pub bad_ratio : F → Bool
    bad_ratio r = fl.is_nan r || fl.is_inf r || fl.le r (fl.of_int 0) || fl.lt (fl.of_int 1) r

    unfoldable pub ratio_budget : ℕ → F → ℕ
    ratio_budget limit r = fl.to_int (fl.floor (fl.mul (fl.of_int limit) r))

    -- The value, or `none` for `(0, false)`.
    unfoldable pub calculate_gomemlimit : ℕ → F → ℕ → Option ℕ
    calculate_gomemlimit limit_bytes ratio min_headroom_bytes =
        let used = if bad_ratio ratio then default_memory_ratio else ratio in
        let headroom =
          if le64 min_headroom_bytes 0 then default_min_headroom_bytes else min_headroom_bytes in
        let half = div64 limit_bytes 2 in
        let reserved = min64 headroom (sub64 limit_bytes half) in
        let headroom_budget = sub64 limit_bytes reserved in
        let budget = min64 (ratio_budget limit_bytes used) headroom_budget in
        if le64 limit_bytes 0 || le64 unlimited_cgroup_v1_memory_threshold limit_bytes
        then none
        else if le64 budget 0
        then none
        else some budget

pub data MemoryError : Type 0 where
  memory_budget : MemoryError

-- The loop of `ExtractionMemory`.
unfoldable pub add_memory : ℕ → List ℕ → Result MemoryError ℕ
add_memory total [] = ok total
add_memory total (value ∷ values) =
    let rest = add_memory (add64 total value) values in
    if is_neg value || lt64 (sub64 max_int64 total) value then err memory_budget else rest

unfoldable pub extraction_memory : ℕ → ℕ → ℕ → ℕ → Result MemoryError ℕ
extraction_memory payload dictionary decoder reserve =
    add_memory 0 (payload ∷ dictionary ∷ decoder ∷ reserve ∷ [])

unfoldable pub retained_memory_limit : ℕ → ℕ → ℕ
retained_memory_limit limit retained =
    if is_neg retained || le64 limit retained then 0 else sub64 limit retained
