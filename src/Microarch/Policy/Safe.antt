-- ===== src/Microarch/Policy/Safe.antt =====
-- What is selected is embedded, can run on the host, and respects the policy.
use microfat.Base.{◌≡◌, Bool, true, false, List, [], ◌∷◌, arith, All, Bool-cases, inl, inr}
use microfat.Base.Int.{ℤ, pos, lez}
use microfat.Text.{Bytes, codes, bytes_eq, is_empty}
use microfat.Text.Laws.{eq_of_bytes_eq}
use microfat.Result.{ok}
use microfat.Microarch.Level.{normalize, rank}
use microfat.Microarch.Host.{Info, canonical_arch}
use microfat.Microarch.Policy.{
  Policy, PolicyResult, VariantCandidate, Cap, find_forced, resolve_forced_variant, cap_max_level,
  compute_effective_max_rank, is_safe_avx512, build_disabled_set, in_set, is_candidate,
  candidate_of, filter_supported, filter_and_rank_candidates, with_disabled, ranks_before,
  pick_first, select_compatible_variant, select_variant_for_host,
}
use microfat.Microarch.Policy.Filter.{
  IsUsable, filter_supported-IsUsable, IsEligible, candidates-IsEligible,
}
use microfat.Microarch.Policy.Sorting.{Sorts, lez_trans}

find_forced-All :
    (P : Bytes → Type 0) (force norm : Bytes) (levels : List Bytes) {res : PolicyResult}
    → All P levels
    → find_forced force norm levels ≡ ok res
    → P res.selected_variant × (normalize res.selected_variant ≡ norm)
unfolding find_forced
find_forced-All P force norm [] h e = cc
find_forced-All P force norm (l ∷ levels) {res} (p, ps) e =
    elim (Bool-cases (bytes_eq (normalize l) norm)) [
      | inl same ↦
          let at : l ≡ res.selected_variant = ground arith in
          rw (← at) (p, eq_of_bytes_eq (normalize l) norm same)
      | inr other ↦ find_forced-All P force norm levels ps (rw other at e)
    ]

-- The first of the sorted candidates has what all candidates have.
pick_first-All :
    (P : VariantCandidate → Type 0) (cap : Cap) (cs : List VariantCandidate) {res : PolicyResult}
    → All P cs
    → pick_first cap cs ≡ ok res
    → (c : VariantCandidate) × P c × (res.selected_variant ≡ c.original)
unfolding pick_first
pick_first-All P cap [] h e = cc
pick_first-All P cap (c ∷ cs) h e = (c, h.0, ground arith)

resolve-forced :
    (arch : Bytes) (host_rank : ℤ) (levels : List Bytes) (force : Bytes) {res : PolicyResult}
    → resolve_forced_variant arch host_rank levels force ≡ ok res
    → find_forced force (normalize force) levels ≡ ok res
unfolding resolve_forced_variant
resolve-forced arch host_rank levels force e = ground arith

-- What the test for candidates says of a level.
candidate-passes :
    (arch : Bytes) (host_rank max_rank : ℤ) (disabled : List Bytes) (l : Bytes)
    → is_candidate host_rank max_rank disabled (candidate_of arch l) ≡ true
    → (lez (rank arch (normalize l)) host_rank ≡ true)
      × (lez (rank arch (normalize l)) max_rank ≡ true)
      × (in_set disabled (normalize l) ≡ false)
unfolding is_candidate candidate_of
candidate-passes arch host_rank max_rank disabled l h = ground arith

-- The three rules of the cap.
module _ (downclocks : Bool) (arch : Bytes) (host_rank : ℤ) (policy : Policy) where
  cap_max_level-le : lez (cap_max_level arch host_rank policy).max_rank host_rank ≡ true
  unfolding cap_max_level
  cap_max_level-le = ground arith

  cap-le-cap_max_level :
      lez
        (compute_effective_max_rank downclocks arch host_rank policy).max_rank
        (cap_max_level arch host_rank policy).max_rank
      ≡ true
  unfolding compute_effective_max_rank
  cap-le-cap_max_level = ground arith

  cap_max_level-max :
      is_empty policy.max_level ≡ false
      → lez (pos 0) (rank arch (normalize policy.max_level)) ≡ true
      → lez (cap_max_level arch host_rank policy).max_rank (rank arch (normalize policy.max_level))
        ≡ true
  unfolding cap_max_level
  cap_max_level-max h k = ground arith

  cap-downclock :
      is_safe_avx512 policy ≡ true
      → bytes_eq (canonical_arch arch) (codes "amd64") ≡ true
      → downclocks ≡ true
      → lez (compute_effective_max_rank downclocks arch host_rank policy).max_rank (pos 3) ≡ true
  unfolding compute_effective_max_rank
  cap-downclock p a d = ground (arith, cap_max_level-le)

-- A level that is not in the set equals none of the names, when these are normalized.
build_disabled_set-All :
    (names : List Bytes) (l : Bytes)
    → in_set (build_disabled_set names) l ≡ false
    → All (λ d. bytes_eq (normalize d) l ≡ false) names
unfolding build_disabled_set in_set
build_disabled_set-All [] l h = tt
build_disabled_set-All (d ∷ ds) l h =
    (ground (arith, h), build_disabled_set-All ds l (ground (arith, h)))

-- What a policy asks of the variant that is selected without force.
pub record Respects (downclocks : Bool) (arch host_level : Bytes) (policy : Policy) (l : Bytes)
    : Type 0 where
  pub not_disabled : in_set (build_disabled_set policy.disabled_variants) (normalize l) ≡ false
  pub not_named : All (λ d. bytes_eq (normalize d) (normalize l) ≡ false) policy.disabled_variants
  pub within_host : lez (rank arch (normalize l)) (rank arch host_level) ≡ true
  pub within_max :
      is_empty policy.max_level ≡ false
      → lez (pos 0) (rank arch (normalize policy.max_level)) ≡ true
      → lez (rank arch (normalize l)) (rank arch (normalize policy.max_level)) ≡ true
  pub no_downclock :
      is_safe_avx512 policy ≡ true
      → bytes_eq (canonical_arch arch) (codes "amd64") ≡ true
      → downclocks ≡ true
      → lez (rank arch (normalize l)) (pos 3) ≡ true

module _
    {sort : (VariantCandidate → VariantCandidate → Bool)
      → List VariantCandidate
      → List VariantCandidate}
    (sorts : Sorts sort) (downclocks : Bool) (arch : Bytes) (host : Info) (available : List Bytes)
    (policy : Policy) {res : PolicyResult}
    (selected : select_variant_for_host sort downclocks arch host available policy ≡ ok res) where
  compatible-selected :
      select_compatible_variant sort downclocks arch host.level
        (filter_supported host available)
        policy
      ≡ ok res
  unfolding select_variant_for_host
  compatible-selected = ground arith

  forced-selected :
      is_empty policy.force_level ≡ false
      → find_forced policy.force_level
          (normalize policy.force_level)
          (filter_supported host available)
        ≡ ok res
  unfolding select_compatible_variant
  forced-selected f =
      resolve-forced arch (rank arch host.level) (filter_supported host available)
        policy.force_level (ground (arith, compatible-selected))

  abbrev pub cap : Cap
  cap = compute_effective_max_rank downclocks arch (rank arch host.level) policy

  abbrev pub disabled : List Bytes
  disabled = build_disabled_set policy.disabled_variants

  pub free-selected :
      is_empty policy.force_level ≡ true
      → pick_first (with_disabled policy.disabled_variants cap) (
          sort ranks_before (
            filter_and_rank_candidates arch
              (rank arch host.level)
              cap.max_rank
              (filter_supported host available)
              disabled))
        ≡ ok res
  unfolding select_compatible_variant
  free-selected f = ground (arith, compatible-selected)

  -- The candidate that was picked.
  abbrev Picked : Type 0
  Picked =
      (c : VariantCandidate) × IsEligible arch (IsUsable host available) (rank arch host.level)
        cap.max_rank disabled c
      × (res.selected_variant ≡ c.original)

  free-Picked : is_empty policy.force_level ≡ true → Picked
  free-Picked f =
      pick_first-All
        (IsEligible arch (IsUsable host available) (rank arch host.level) cap.max_rank disabled)
        (with_disabled policy.disabled_variants cap) _
        (sorts.keeps ranks_before _ _ (
          candidates-IsEligible arch (rank arch host.level) cap.max_rank disabled
            (IsUsable host available) (filter_supported host available)
            (filter_supported-IsUsable host available)))
        (free-selected f)

  -- Whatever the policy, the selected variant is one of the available ones, and the host supports it.
  pub selected-IsUsable : IsUsable host available res.selected_variant
  selected-IsUsable = elim (Bool-cases (is_empty policy.force_level)) [
    | inl f ↦ let (c, e, at) = free-Picked f in rw at e.source
    | inr f ↦
        (find_forced-All (IsUsable host available) policy.force_level (normalize policy.force_level)
          (filter_supported host available) (filter_supported-IsUsable host available)
          (forced-selected f)).0
  ]

  -- Under a forced level the selected variant has that level.
  pub selected-forced :
      is_empty policy.force_level ≡ false
      → normalize res.selected_variant ≡ normalize policy.force_level
  selected-forced f =
      (find_forced-All (IsUsable host available) policy.force_level (normalize policy.force_level)
        (filter_supported host available) (filter_supported-IsUsable host available)
        (forced-selected f)).1

  -- Without a forced level the selected variant respects the rest of the policy: it is not disabled,
  -- so that it equals none of the disabled names when these are normalized,
  -- its rank is at most the host's and that of a known maximal level, and on a CPU that lowers its
  -- clock under AVX-512 it is at most v3 where the policy asks for protection.
  pub selected-Respects :
      is_empty policy.force_level ≡ true
      → Respects downclocks arch host.level policy res.selected_variant
  selected-Respects f =
      let (c, e, at) = free-Picked f in
      let h = rank arch host.level in
      let (low, capped, free) =
        candidate-passes arch h cap.max_rank disabled c.original (rw e.made at e.passes) in
      rw at (record {
        not_disabled = free;
        not_named = build_disabled_set-All policy.disabled_variants (normalize c.original) free;
        within_host = low;
        within_max = λ m k. lez_trans _ cap.max_rank _ capped (
            lez_trans _ (cap_max_level arch h policy).max_rank _
              (cap-le-cap_max_level downclocks arch h policy)
              (cap_max_level-max downclocks arch h policy m k));
        no_downclock = λ p a d.
            lez_trans _ cap.max_rank (pos 3) capped (cap-downclock downclocks arch h policy p a d);
      })
