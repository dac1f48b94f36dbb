-- ===== src/Tests/CgroupRuns.antt =====
-- Runs of internal/cgroup on sample files.
use microfat.Base.{
  ℕ, ◌+◌, ◌≤◌, ◌<◌, ◌++◌, ◌≡◌, ◌↔◌, ◌⊎◌, inr, refl, true, false, some, none, [], ◌∷◌, arith,
}
use microfat.Words.{IsNonneg}
use microfat.Words.Signed.{div64}
use microfat.Cgroup.ByteSize.{
  Token, parse_byte_size, split_byte_size_token, resolve_byte_multiplier, whole_part, frac_part,
}
use microfat.Cgroup.ByteSize.Amount.{Reads}
use microfat.Cgroup.ByteSize.Parse.{parse_byte_size_iff}
use microfat.Cgroup.Memory.Effective.{
  IsValid, least, reported, hard_bound, high_bound, effective_memory_limit-least,
}
use microfat.Cgroup.Memory.Budget.{
  reserve_of, calculate_gomemlimit-range, calculate_gomemlimit_mono,
}
use microfat.Cgroup.Hierarchy.Walk.{read_all, keep_all, ancestors, traverse-ancestors}
use microfat.Cgroup.Hierarchy.Valid.{read_limits_custom-IsValid}
use microfat.Cgroup.Proc.Lines.{unlines, lines_of-unlines}
use microfat.Cgroup.Tuning.{
  gc_profile_batch_etl, default_batch_etl_gogc, resolve_tuning_plan_with_profile,
  calculate_adaptive_gogc,
}
use microfat.Cgroup.Tuning.Gogc.{calculate_adaptive_gogc-range}
use microfat.Cgroup.Tuning.Plan.{resolve_tuning_plan_with_profile-off_iff}
use microfat.Cgroup.Environment.{runtime_memory_limit}
use microfat.Cgroup.Tuning.Printed.{runtime_memory_limit-itoa}
use microfat.Text.{
  index_byte, codes, bytes_eq, to_lower, trim_space, trim_left, trim_right, has_prefix,
}
use microfat.Text.Number.{itoa, parse_int, digits_value}
use microfat.Result.{ok, ◌>>=◌}
use microfat.Cgroup.Memory.{
  Limits, has_memory_limit, has_memory_high, effective_memory_limit,
  calculate_effective_memory_limit, calculate_gomemlimit, bad_ratio, ratio_budget,
  default_memory_ratio, unlimited_cgroup_v1_memory_threshold,
}
use microfat.Cgroup.Hierarchy.{
  read_limits_custom, read_limits_at, read_cgroup_v2, traverse_cgroup_v2_memory,
  traverse_cgroup_v2_cpu, traverse, read_both, keep_least, limits_v2, set_hard, set_high, set_quota,
  no_limits, keep_both, enough,
}
use microfat.Cgroup.Readers.{
  read_cgroup_v2_memory_value, read_cgroup_v2_cpu, read_value, value_of, parse_v2_memory,
}
use microfat.Cgroup.Paths.{read_trimmed_file, first_line, resolve_target_directory, is_subpath}
use microfat.Cgroup.Proc.{
  parse_proc_cgroup, add_lines, add_line, add_entry, split_entry, cut, scan_lines,
  scan_proc_cgroup_line, lines_of,
}
use microfat.Tests.Sample.{
  hundredths, hundredths-IsInt64, hundredths-IsClamping, sample, sample-IsShrinking,
}

abbrev sample_limits : Limits ℕ
sample_limits = record {
  retained_executable_bytes = 0;
  cgroup_version = 2;
  memory_limit_bytes = 1073741824;
  memory_high_bytes = 536870912;
  effective_memory_limit_bytes = 536870912;
  memory_limit_finite = true;
  memory_high_finite = true;
  cpu_quota = 0;
  cpus = 0;
}

read_sample : read_limits_custom hundredths sample (codes "/cg") [] ≡ ok sample_limits
unfolding read_limits_custom read_limits_at read_cgroup_v2 traverse_cgroup_v2_memory
    traverse_cgroup_v2_cpu traverse read_both read_cgroup_v2_memory_value read_cgroup_v2_cpu
    read_value value_of parse_v2_memory keep_least limits_v2 set_hard set_high set_quota no_limits
    read_trimmed_file first_line resolve_target_directory is_subpath parse_proc_cgroup add_lines
    add_line add_entry split_entry cut scan_lines scan_proc_cgroup_line index_byte bytes_eq to_lower
    trim_space trim_left trim_right has_prefix parse_int digits_value has_memory_limit
    has_memory_high effective_memory_limit calculate_effective_memory_limit
read_sample = refl

read_limits_custom-IsValid_example : IsValid sample_limits
read_limits_custom-IsValid_example =
    read_limits_custom-IsValid hundredths sample (codes "/cg") [] sample_limits read_sample

valid : IsValid sample_limits
unfolding has_memory_limit has_memory_high
valid = record { hard = omega arith; high = omega arith; effective = inr refl }

resolve_tuning_plan_with_profile-off_iff_example :
    let plan =
      resolve_tuning_plan_with_profile hundredths sample_limits [] 90 0 gc_profile_batch_etl 0 in
    (plan.gogc ≡ default_batch_etl_gogc)
    ↔ ((gc_profile_batch_etl ≡ gc_profile_batch_etl) × (0 < plan.gomemlimit_bytes))
resolve_tuning_plan_with_profile-off_iff_example =
    resolve_tuning_plan_with_profile-off_iff hundredths hundredths-IsInt64 hundredths-IsClamping
      sample_limits [] 90 0 gc_profile_batch_etl 0 valid (omega arith) (omega arith) (omega arith)

effective_memory_limit-least_example :
    effective_memory_limit sample_limits
    ≡ reported (least (hard_bound sample_limits) (high_bound sample_limits))
effective_memory_limit-least_example = effective_memory_limit-least sample_limits valid

-- 90 hundredths of half a gibibyte.
budget : calculate_gomemlimit hundredths 536870912 90 0 ≡ some 469762048
unfolding calculate_gomemlimit bad_ratio ratio_budget div64
budget = refl

calculate_gomemlimit-range_example :
    (0 < 469762048)
    × (469762048 + reserve_of 536870912 0 ≤ 536870912)
    × (536870912 < unlimited_cgroup_v1_memory_threshold)
calculate_gomemlimit-range_example =
    calculate_gomemlimit-range hundredths hundredths-IsInt64 536870912 90 0 (omega arith)
      (omega arith) budget

ninety-sane : bad_ratio hundredths (default_memory_ratio hundredths) ≡ false
unfolding bad_ratio
ninety-sane = refl

budget-grows :
    (r : ℕ)
    → bad_ratio hundredths r ≡ false
    → (ratio_budget hundredths 536870912 r ≤ ratio_budget hundredths 1073741824 r)
      × IsNonneg (ratio_budget hundredths 1073741824 r)
unfolding bad_ratio ratio_budget
budget-grows r h = (ground (arith, h), ground (arith, h))

calculate_gomemlimit_mono_example :
    (y : ℕ) × (calculate_gomemlimit hundredths 1073741824 90 0 ≡ some y) × (469762048 ≤ y)
calculate_gomemlimit_mono_example =
    calculate_gomemlimit_mono hundredths hundredths-IsInt64 536870912 1073741824 90 0 ninety-sane
      budget-grows (omega arith) (omega arith) (omega arith) budget

calculate_adaptive_gogc-range_example :
    ((calculate_adaptive_gogc hundredths 3000 2000 ≡ none)
      ↔ (◌≡◌ {A = ℕ} 3000 0 ⊎ ◌≡◌ {A = ℕ} 2000 0))
    × ((n : ℕ) → calculate_adaptive_gogc hundredths 3000 2000 ≡ some n → (10 ≤ n) × (n ≤ 100))
calculate_adaptive_gogc-range_example =
    calculate_adaptive_gogc-range hundredths hundredths-IsClamping 3000 2000 (omega arith)
      (omega arith)

lines_of-unlines_example :
    lines_of (unlines ((b'/' ∷ 13 ∷ []) ∷ [] ∷ [])) ≡ (b'/' ∷ 13 ∷ []) ∷ [] ∷ []
lines_of-unlines_example =
    lines_of-unlines ((b'/' ∷ 13 ∷ []) ∷ [] ∷ [])
      ((λ e. absurd (omega (arith, e)), (λ e. absurd (omega (arith, e)), tt)), (tt, tt))

absolute : has_prefix (codes "/cg/app") (codes "/") ≡ true
unfolding has_prefix
absolute = refl

traverse-ancestors_example :
    traverse sample
      (read_both sample)
      keep_both
      (codes "/cg")
      (enough (codes "/cg/app"))
      (codes "/cg/app")
      (none, none)
    ≡ (read_all
          (read_both sample)
          (ancestors sample (codes "/cg") (enough (codes "/cg/app")) (codes "/cg/app"))
        >>= λ vs. ok (keep_all keep_both (none, none) vs))
traverse-ancestors_example =
    traverse-ancestors sample sample-IsShrinking (codes "/cg") (read_both sample) keep_both
      (codes "/cg/app") (none, none) absolute

below : is_subpath (codes "/cg") (codes "/cg/app") ≡ true
unfolding is_subpath bytes_eq has_prefix
below = refl

parse_byte_size_iff_example : (parse_byte_size (codes "1.5 KiB") ≡ ok 1536) ↔ (
    (t : Token) × (m : ℕ) × (split_byte_size_token (codes "1.5 KiB") ≡ ok t)
    × (resolve_byte_multiplier t.unit ≡ ok m)
    × Reads m (whole_part t) (frac_part t) 1536)
parse_byte_size_iff_example = parse_byte_size_iff (codes "1.5 KiB") 1536

runtime_memory_limit-itoa_example : runtime_memory_limit (itoa 469762048 ++ codes "B") ≡ 469762048
runtime_memory_limit-itoa_example = runtime_memory_limit-itoa 469762048 (omega arith) (omega arith)
