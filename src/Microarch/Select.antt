-- ===== src/Microarch/Select.antt =====
-- The selection for a host of which only the level is known: `SelectVariantWithPolicy` and
-- `BestMatchingVariantFor` of internal/microarch/microarch.go. The features of the level stand in one
-- order here; a map has no order, and the selection asks only which features are there.
use microfat.Base.{
  ◌≡◌, inl, inr, refl, Bool, true, false, ◌||◌, Option, none, some, List, [], arith, if◌then◌else◌,
}
use microfat.Text.{Bytes, codes, bytes_eq, equal_fold, to_lower, lower_byte}
use microfat.Result.{Result, ok, ◌>>=◌}
use microfat.Microarch.Level.{normalize, switch}
use microfat.Microarch.Requirements.{LevelRequirement}
use microfat.Microarch.Host.{
  Info, Collected, canonical_arch, collect_arm64_requirements, collect_fuel,
}
use microfat.Microarch.Host.Closure.{Requires, collect-Adds}
use microfat.Microarch.Host.Total.{Outcome, collect-total, host_supports_iff}
use microfat.Microarch.Policy.{
  Policy, PolicyResult, SelectError, VariantCandidate, in_set, select_variant_for_host,
}
use microfat.Microarch.Policy.Sorting.{Sorts}
use microfat.Microarch.Policy.Safe.{selected-IsUsable}

-- What the collection leaves in the map, whether it succeeds or not.
abbrev pub collected_features : Collected → List Bytes
collected_features none = []
collected_features (some (success, set)) = set

unfoldable pub host_of_level : Bytes → Bytes → Info
host_of_level arch host_level = record {
  arch = arch;
  level = host_level;
  features =
      if equal_fold arch (codes "arm64") || equal_fold arch (codes "aarch64")
      then collected_features (collect_arm64_requirements collect_fuel (normalize host_level) [])
      else [];
}

module _
    (sort : (VariantCandidate → VariantCandidate → Bool)
      → List VariantCandidate
      → List VariantCandidate)
    (downclocks : Bool) where
  unfoldable pub select_variant_with_policy :
      Bytes → Bytes → List Bytes → Policy → Result SelectError PolicyResult
  select_variant_with_policy arch host_level available policy =
      select_variant_for_host sort downclocks arch (host_of_level arch host_level) available policy

  unfoldable pub best_matching_variant_for : Bytes → Bytes → List Bytes → Result SelectError Bytes
  best_matching_variant_for arch host_level available = do
    res ← select_variant_with_policy arch host_level available (record {
      name = [];
      force_level = [];
      max_level = [];
      disabled_variants = [];
      avx512_downclock_protection = false;
    })
    ok res.selected_variant

collected-Requires :
    (level f : Bytes) (found : Option LevelRequirement) (c : Collected)
    → Outcome level [] found
    → collect_arm64_requirements collect_fuel level [] ≡ c
    → in_set (collected_features c) f ≡ true
    → Requires level f
unfolding in_set
collected-Requires level f found none ends e m = cc
collected-Requires level f found (some (true, set)) ends e m =
    elim ((collect-Adds collect_fuel level [] set e).only f m) [ inl k ↦ cc k | inr r ↦ r ]
collected-Requires level f none (some (false, set)) ends e m =
    let same : [] ≡ set = ground arith in let k : in_set [] f ≡ true = rw (← same) at m in cc k
collected-Requires level f (some req) (some (false, set)) (set', ends) e m = ground arith

module _
    {sort : (VariantCandidate → VariantCandidate → Bool)
      → List VariantCandidate
      → List VariantCandidate}
    (sorts : Sorts sort) (downclocks : Bool) where
  -- On ARM64 what is selected for a host level requires no feature that the host
  -- level does not require: whatever the policy, and a forced level too.
  pub select_variant_with_policy-Requires :
      (host_level : Bytes) (available : List Bytes) (policy : Policy) {res : PolicyResult}
      → select_variant_with_policy sort downclocks (codes "arm64") host_level available policy
        ≡ ok res
      → (f : Bytes) → Requires (normalize res.selected_variant) f
      → Requires (normalize host_level) f
  unfolding select_variant_with_policy
  select_variant_with_policy-Requires host_level available policy {res} selected f r =
      let host = host_of_level (codes "arm64") host_level in
      let u = selected-IsUsable sorts downclocks (codes "arm64") host available policy selected in
      let present =
        ((host_supports_iff host res.selected_variant
              (unfold host_of_level canonical_arch switch to_lower lower_byte bytes_eq in refl)).0
            u.supported).1
          f r in
      collected-Requires (normalize host_level) f _ _ (collect-total (normalize host_level) []) refl
        (unfold host_of_level equal_fold to_lower lower_byte bytes_eq in present)
