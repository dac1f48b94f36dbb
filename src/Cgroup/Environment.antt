-- ===== src/Cgroup/Environment.antt =====
-- What is read from the environment: `ResolveCPUPolicy` of internal/cgroup/cpu_policy.go, and
-- `RuntimeMemoryLimit` of internal/cgroup/batch_gc.go. An `int64` is its bit pattern.
use microfat.Base.{
  ℕ, ◌*◌, ◌/◌, ◌%◌, ◌^◌, ◌&&◌, ◌||◌, not, Option, none, some, List, [], ◌∷◌, ◌==◌, if◌then◌else◌,
  suc, zero,
}
use microfat.Words.{le64, lt64}
use microfat.Text.{Bytes, codes, bytes_eq, to_lower, trim_space}
use microfat.Text.Number.{parse_int, has_suffix, trim_suffix}
use microfat.Cgroup.ByteSize.{max_int64}

abbrev pub cpu_policy_static : Bytes
cpu_policy_static = codes "static"

abbrev pub cpu_policy_native : Bytes
cpu_policy_native = codes "native"

-- The loop of `ResolveCPUPolicy`.
unfoldable pub first_policy : List Bytes → Bytes
first_policy [] = cpu_policy_static
first_policy (value ∷ values) =
    let policy = to_lower (trim_space value) in
    let rest = first_policy values in
    if bytes_eq policy cpu_policy_static || bytes_eq policy cpu_policy_native then policy else rest

unfoldable pub resolve_cpu_policy : Bytes → Bytes → Bytes
resolve_cpu_policy env_value fallback = first_policy (env_value ∷ fallback ∷ [])

-- `for range i { multiplier *= unitBase }`
unfoldable pub unit_multiplier : ℕ → ℕ
unit_multiplier zero = 1
unit_multiplier (suc i) = (unit_multiplier i * 1024) % 2 ^ 64

-- The loop over the suffixes, from the index `i`: the rest of the value and the multiplier.
unfoldable pub strip_unit : Bytes → ℕ → List Bytes → Bytes × ℕ
strip_unit value i [] = (value, 1)
strip_unit value i (suffix ∷ suffixes) =
    let rest = strip_unit value (suc i) suffixes in
    if has_suffix value suffix
      && (not (bytes_eq suffix (codes "B")) || not (has_suffix value (codes "iB")))
    then (trim_suffix value suffix, unit_multiplier i)
    else rest

-- `n > math.MaxInt64/multiplier` is before the product, and `n` is positive there.
unfoldable pub scale_limit : ℕ → Option ℕ → ℕ
scale_limit multiplier none = 0
scale_limit multiplier (some n) =
    if le64 n 0 || lt64 (max_int64 / multiplier) n || (n * multiplier) % 2 ^ 64 == max_int64
    then 0
    else (n * multiplier) % 2 ^ 64

unfoldable pub runtime_memory_limit : Bytes → ℕ
runtime_memory_limit value =
    let (number, multiplier) =
      strip_unit value 0 (codes "B" ∷ codes "KiB" ∷ codes "MiB" ∷ codes "GiB" ∷ codes "TiB" ∷ []) in
    scale_limit multiplier (parse_int number)
