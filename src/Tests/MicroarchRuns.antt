-- ===== src/Tests/MicroarchRuns.antt =====
-- Runs of internal/microarch/microarch.go on small hosts.
use microfat.Base.{◌≡◌, ◌↔◌, refl, true, false, List, [], ◌∷◌, length, replicate, ◌++◌, ◌^◌}
use microfat.Base.Int.{ℤ, lez}
use microfat.Text.{
  Bytes, codes, equal_fold, lower_byte, bytes_eq, is_empty, to_lower, trim_prefix, trim_space,
}
use microfat.Result.{ok}
use microfat.Microarch.Level.{normalize, rank, switch, ranks_of, with_v, trim_prefixes}
use microfat.Microarch.Host.{
  Info, collect_found, collect_prereqs, if_collected, insert_all, delete, delete_all, is_empty_set,
  meets, find_in, canonical_arch, rank_supports, host_supports, collect_arm64_requirements,
  find_requirement,
}
use microfat.Microarch.Host.Closure.{Requires}
use microfat.Microarch.Host.Total.{Outcome, IsKnown, collect-total, host_supports_iff}
use microfat.Words.{put_uint}
use microfat.Microarch.Policy.{
  Policy, PolicyResult, in_set, select_variant_for_host, compute_effective_max_rank,
  build_disabled_set, is_empty_list, filter_supported, select_compatible_variant, is_safe_avx512,
  cap_max_level, filter_and_rank_candidates, is_candidate, candidate_of, with_disabled,
  ranks_before, pick_first, resolve_forced_variant, find_forced,
}
use microfat.Microarch.Requirements.{arm64_level_requirements}
use microfat.Microarch.Select.{
  select_variant_with_policy, host_of_level, select_variant_with_policy-Requires,
}
use microfat.Microarch.Policy.Filter.{IsUsable}
use microfat.Microarch.Policy.Sorting.{insertion_sort, insertion_sort-Sorts}
use microfat.Microarch.Policy.Safe.{Respects, selected-IsUsable, selected-Respects}
use microfat.Microarch.Policy.Best.{IsAllowed, select-succeeds, selected-best}

-- An AMD64 host of level v3, and a file with three variants.
abbrev v3_host : Info
v3_host = record { arch = codes "x86_64"; level = codes "v3"; features = [] }

abbrev embedded : List Bytes
embedded = codes "v1" ∷ codes "v2" ∷ codes "v4" ∷ []

abbrev no_policy : Policy
no_policy = record {
  name = [];
  force_level = [];
  max_level = [];
  disabled_variants = [];
  avx512_downclock_protection = false;
}

abbrev force_v1 : Policy
force_v1 = record no_policy { force_level = codes "amd64-V1" }

abbrev chose : Bytes → Bytes → Bytes → PolicyResult
chose level applied reason = record {
  selected_variant = level;
  policy_applied = applied;
  override_reason = reason;
}

v3_host-selects :
    select_variant_for_host insertion_sort false (codes "amd64") v3_host embedded no_policy
    ≡ ok (chose (codes "v2") [] [])
unfolding select_variant_for_host bytes_eq canonical_arch switch to_lower rank ranks_of normalize
    with_v trim_prefixes trim_prefix trim_space host_supports rank_supports is_empty_list
    filter_supported select_compatible_variant is_safe_avx512 cap_max_level
    compute_effective_max_rank filter_and_rank_candidates build_disabled_set is_candidate
    candidate_of in_set with_disabled ranks_before pick_first
v3_host-selects = refl

force_v1-selects :
    select_variant_for_host insertion_sort false (codes "amd64") v3_host embedded force_v1
    ≡ ok (chose (codes "v1") (codes "force_level") (codes "MICROFAT_FORCE_LEVEL=amd64-V1"))
unfolding select_variant_for_host bytes_eq canonical_arch switch to_lower rank ranks_of normalize
    with_v trim_prefixes trim_prefix trim_space host_supports rank_supports is_empty_list
    filter_supported select_compatible_variant resolve_forced_variant find_forced
force_v1-selects = refl

v1-supported : host_supports v3_host (codes "v1") ≡ true
unfolding host_supports rank_supports canonical_arch bytes_eq switch to_lower rank ranks_of
    normalize with_v trim_prefixes trim_prefix trim_space
v1-supported = refl

same_arch : bytes_eq (canonical_arch (codes "amd64")) (canonical_arch v3_host.arch) ≡ true
unfolding canonical_arch bytes_eq switch to_lower
same_arch = refl

not_forced : is_empty no_policy.force_level ≡ true
not_forced = refl

forced : is_empty force_v1.force_level ≡ false
forced = refl

abbrev max_rank : ℤ
max_rank =
    (compute_effective_max_rank false (codes "amd64") (rank (codes "amd64") (codes "v3"))
      no_policy).max_rank

v1-IsAllowed :
    IsAllowed
      (codes "amd64")
      (rank (codes "amd64") (codes "v3"))
      max_rank
      (build_disabled_set [])
      (codes "v1")
unfolding bytes_eq rank switch ranks_of to_lower normalize with_v trim_prefixes trim_prefix
    trim_space is_safe_avx512 cap_max_level compute_effective_max_rank in_set build_disabled_set
v1-IsAllowed = record { known = refl; within_host = refl; within_max = refl; enabled = refl }

selected-IsUsable_example : IsUsable v3_host embedded (codes "v2")
selected-IsUsable_example =
    selected-IsUsable insertion_sort-Sorts false (codes "amd64") v3_host embedded no_policy
      v3_host-selects

selected-Respects_example : Respects false (codes "amd64") (codes "v3") no_policy (codes "v2")
selected-Respects_example =
    selected-Respects insertion_sort-Sorts false (codes "amd64") v3_host embedded no_policy
      v3_host-selects not_forced

select-succeeds_example :
    (res : PolicyResult) × (select_variant_for_host insertion_sort false
        (codes "amd64")
        v3_host
        embedded
        no_policy
      ≡ ok res)
select-succeeds_example =
    select-succeeds insertion_sort-Sorts false (codes "amd64") v3_host embedded no_policy 0
      (codes "v1") same_arch not_forced refl v1-supported v1-IsAllowed

selected-best_example :
    lez
      (rank (codes "amd64") (normalize (codes "v1")))
      (rank (codes "amd64") (normalize (codes "v2")))
    ≡ true
selected-best_example =
    selected-best insertion_sort-Sorts false (codes "amd64") v3_host embedded no_policy
      v3_host-selects not_forced 0 (codes "v1") refl v1-supported v1-IsAllowed

-- An ARM64 host that has what v8.0 asks for.
abbrev arm_host : Info
arm_host = record {
  arch = codes "aarch64";
  level = codes "v8.0";
  features = codes "fp" ∷ codes "asimd" ∷ [];
}

arm_host-arch : bytes_eq (canonical_arch arm_host.arch) (codes "arm64") ≡ true
unfolding canonical_arch bytes_eq switch to_lower
arm_host-arch = refl

host_supports_iff_example : (host_supports arm_host (codes "v8.1") ≡ true) ↔ (
    IsKnown (normalize (codes "v8.1"))
    × ((f : Bytes) → Requires (normalize (codes "v8.1")) f → in_set arm_host.features f ≡ true))
host_supports_iff_example = host_supports_iff arm_host (codes "v8.1") arm_host-arch

collect-total_example : Outcome (codes "v9.5") [] (find_requirement (codes "v9.5"))
collect-total_example = collect-total (codes "v9.5") []

-- The auxiliary vector of a kernel that names one feature word, and its end.
abbrev auxv : Bytes
auxv = put_uint 8 26 ++ (put_uint 8 (2 ^ 14) ++ replicate 16 0)

auxv-length : length auxv ≡ 32
unfolding put_uint
auxv-length = refl

-- A file with two levels, of which a host of level v8.1 runs one.
abbrev arm_embedded : List Bytes
arm_embedded = codes "v8.0" ∷ codes "v8.2" ∷ []

v8_1-selects :
    select_variant_with_policy insertion_sort false
      (codes "arm64")
      (codes "v8.1")
      arm_embedded
      no_policy
    ≡ ok (chose (codes "v8.0") [] [])
unfolding select_variant_with_policy host_of_level select_variant_for_host bytes_eq canonical_arch
    switch to_lower lower_byte rank ranks_of normalize with_v trim_prefixes trim_prefix trim_space
    host_supports rank_supports is_empty_list filter_supported select_compatible_variant
    is_safe_avx512 cap_max_level compute_effective_max_rank filter_and_rank_candidates
    build_disabled_set is_candidate candidate_of in_set with_disabled pick_first equal_fold
    collect_arm64_requirements collect_found collect_prereqs if_collected insert_all delete
    delete_all is_empty_set meets find_requirement find_in arm64_level_requirements
v8_1-selects = refl

v8_0-Requires : Requires (normalize (codes "v8.0")) (codes "fp")
unfolding normalize with_v trim_prefixes trim_prefix trim_space to_lower find_requirement find_in
    arm64_level_requirements bytes_eq in_set
v8_0-Requires = Requires.own refl refl

select_variant_with_policy-Requires_example : Requires (normalize (codes "v8.1")) (codes "fp")
select_variant_with_policy-Requires_example =
    select_variant_with_policy-Requires insertion_sort-Sorts false (codes "v8.1") arm_embedded
      no_policy v8_1-selects (codes "fp") v8_0-Requires
