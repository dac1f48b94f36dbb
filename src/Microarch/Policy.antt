-- ===== src/Microarch/Policy.antt =====
-- The choice of a variant in internal/microarch/microarch.go: `SelectVariantForHost` and what it
-- calls. The texts of the errors are left out. `sort.Slice` is a parameter, which the code calls with its
-- comparator: it may reorder candidates of equal rank. So is the test for CPUs that lower their clock under AVX-512.
pub mod Filter
pub mod Sorting
pub mod Safe
pub mod Best
use microfat.Base.{
  ℕ, zero, suc, Bool, true, false, ◌&&◌, ◌||◌, not, Option, none, some, List, [], ◌∷◌, ◌++◌, ◌==◌,
  if◌then◌else◌,
}
use microfat.Base.Int.{ℤ, pos, ltz, lez}
use microfat.Text.{Bytes, codes, bytes_eq, is_empty, equal_fold}
use microfat.Result.{Result, ok, err, ◌>>=◌, ◌>>◌, reject_if}
use microfat.Microarch.Level.{normalize, rank}
use microfat.Microarch.Host.{
  Info, canonical_arch, collect_arm64_requirements, collect_fuel, Collected, host_supports,
}

pub record Policy : Type 0 where
  pub name : Bytes
  pub force_level : Bytes
  pub max_level : Bytes
  pub disabled_variants : List Bytes
  pub avx512_downclock_protection : Bool

pub record PolicyResult : Type 0 where
  pub selected_variant : Bytes
  pub policy_applied : Bytes
  pub override_reason : Bytes

-- The sentinel that an error wraps; `unknown_host` is an error with none.
pub data SelectError : Type 0 where
  no_matching_variant empty_variants incompatible_forced_variant : SelectError
  variant_not_embedded unknown_host : SelectError

pub record VariantCandidate : Type 0 where
  pub original : Bytes
  pub norm : Bytes
  pub rank_of : ℤ

-- `strings.Join(list, ",")`
unfoldable pub join_comma : List Bytes → Bytes
join_comma [] = []
join_comma (s ∷ []) = s
join_comma (s ∷ t ∷ rest) = s ++ (codes "," ++ join_comma (t ∷ rest))

-- The elements of `levels` that the host supports.
unfoldable pub filter_supported : Info → List Bytes → List Bytes
filter_supported host [] = []
filter_supported host (l ∷ levels) =
    let rest = filter_supported host levels in if host_supports host l then l ∷ rest else rest

unfoldable pub is_empty_list : List Bytes → Bool
is_empty_list [] = true
is_empty_list (l ∷ levels) = false

-- The loop of `resolveForcedVariant` over the available levels.
unfoldable pub find_forced : Bytes → Bytes → List Bytes → Result SelectError PolicyResult
find_forced force_level norm_forced [] = err variant_not_embedded
find_forced force_level norm_forced (l ∷ levels) =
    if bytes_eq (normalize l) norm_forced
    then ok (record {
      selected_variant = l;
      policy_applied = codes "force_level";
      override_reason = codes "MICROFAT_FORCE_LEVEL=" ++ force_level;
    })
    else find_forced force_level norm_forced levels

unfoldable pub resolve_forced_variant :
    Bytes → ℤ → List Bytes → Bytes → Result SelectError PolicyResult
resolve_forced_variant arch host_rank available force_level = do
  let norm_forced = normalize force_level
  let forced_rank = rank arch norm_forced
  reject_if (ltz forced_rank (pos 0)) incompatible_forced_variant
  reject_if (lez (pos 0) host_rank && ltz host_rank forced_rank) incompatible_forced_variant
  find_forced force_level norm_forced available

-- `effectiveMaxRank, policyApplied, overrideReason`
pub record Cap : Type 0 where
  pub max_rank : ℤ
  pub applied : Bytes
  pub reason : Bytes

unfoldable pub cap_max_level : Bytes → ℤ → Policy → Cap
cap_max_level arch host_rank policy =
    let max_rank = rank arch (normalize policy.max_level) in
    if not (is_empty policy.max_level) && (lez (pos 0) max_rank && ltz max_rank host_rank)
    then record {
      max_rank = max_rank;
      applied = codes "max_level";
      reason = codes "MICROFAT_MAX_LEVEL=" ++ policy.max_level;
    }
    else record { max_rank = host_rank; applied = []; reason = [] }

unfoldable pub is_safe_avx512 : Policy → Bool
is_safe_avx512 policy =
    policy.avx512_downclock_protection
    || bytes_eq policy.name (codes "safe_avx512")
    || bytes_eq policy.name (codes "no_downclock")

unfoldable pub compute_effective_max_rank : Bool → Bytes → ℤ → Policy → Cap
compute_effective_max_rank downclocks arch host_rank policy =
    let cap = cap_max_level arch host_rank policy in
    if is_safe_avx512 policy
      && bytes_eq (canonical_arch arch) (codes "amd64")
      && lez (pos 4) host_rank
      && downclocks
      && ltz (pos 3) cap.max_rank
    then record {
      max_rank = pos 3;
      applied = codes "avx512_downclock_protection";
      reason =
          codes
            "Intel Skylake-X/Cascade Lake AVX-512 downclocking protection applied (capped at v3)";
    }
    else cap

unfoldable pub build_disabled_set : List Bytes → List Bytes
build_disabled_set [] = []
build_disabled_set (d ∷ ds) = normalize d ∷ build_disabled_set ds

unfoldable pub in_set : List Bytes → Bytes → Bool
in_set [] s = false
in_set (t ∷ ts) s = bytes_eq t s || in_set ts s

unfoldable pub is_candidate : ℤ → ℤ → List Bytes → VariantCandidate → Bool
is_candidate host_rank max_rank disabled c =
    if ltz c.rank_of (pos 0) || ltz host_rank c.rank_of || ltz max_rank c.rank_of
    then false
    else not (in_set disabled c.norm)

-- The candidate that a level gives.
unfoldable pub candidate_of : Bytes → Bytes → VariantCandidate
candidate_of arch l = record { original = l; norm = normalize l; rank_of = rank arch (normalize l) }

unfoldable pub filter_and_rank_candidates :
    Bytes → ℤ → ℤ → List Bytes → List Bytes → List VariantCandidate
filter_and_rank_candidates arch host_rank max_rank [] disabled = []
filter_and_rank_candidates arch host_rank max_rank (l ∷ levels) disabled =
    let rest = filter_and_rank_candidates arch host_rank max_rank levels disabled in
    if is_candidate host_rank max_rank disabled (candidate_of arch l)
    then candidate_of arch l ∷ rest
    else rest

-- The disabled variants are named where no other rule was applied.
unfoldable pub with_disabled : List Bytes → Cap → Cap
with_disabled disabled cap =
    if not (is_empty_list (build_disabled_set disabled)) && is_empty cap.applied
    then record cap {
      applied = codes "disable_variants";
      reason = codes "MICROFAT_DISABLE_VARIANTS=" ++ join_comma disabled;
    }
    else cap

-- The comparator of the sort: `candidates[i].rank > candidates[j].rank`.
unfoldable pub ranks_before : VariantCandidate → VariantCandidate → Bool
ranks_before a b = ltz b.rank_of a.rank_of

-- `candidates[0]` after the sort, or the error for no candidates.
unfoldable pub pick_first : Cap → List VariantCandidate → Result SelectError PolicyResult
pick_first cap [] = err no_matching_variant
pick_first cap (c ∷ cs) = ok (record {
  selected_variant = c.original;
  policy_applied = cap.applied;
  override_reason = cap.reason;
})

module _
    (sort : (VariantCandidate → VariantCandidate → Bool)
      → List VariantCandidate
      → List VariantCandidate)
    (downclocks : Bool) where
  unfoldable pub select_compatible_variant :
      Bytes → Bytes → List Bytes → Policy → Result SelectError PolicyResult
  select_compatible_variant arch host_level available policy =
      let host_rank = rank arch host_level in
      if is_empty_list available
      then err empty_variants
      else if not (is_empty policy.force_level)
      then resolve_forced_variant arch host_rank available policy.force_level
      else if ltz host_rank (pos 0)
      then err unknown_host
      else let cap = compute_effective_max_rank downclocks arch host_rank policy in
        pick_first (with_disabled policy.disabled_variants cap) (
          sort ranks_before (
            filter_and_rank_candidates arch host_rank cap.max_rank available
              (build_disabled_set policy.disabled_variants)))

  unfoldable pub select_variant_for_host :
      Bytes → Info → List Bytes → Policy → Result SelectError PolicyResult
  select_variant_for_host arch host available policy = do
    let compatible = filter_supported host available
    reject_if (not (bytes_eq (canonical_arch arch) (canonical_arch host.arch))) no_matching_variant
    reject_if (ltz (rank arch host.level) (pos 0)) no_matching_variant
    reject_if (not (is_empty policy.force_level) && not (host_supports host policy.force_level))
        incompatible_forced_variant
    reject_if (not (is_empty_list available) && is_empty_list compatible) no_matching_variant
    select_compatible_variant arch host.level compatible policy
