-- ===== src/Microarch/Policy/Best.antt =====
-- What is selected is the best that the policy leaves, and something is selected wherever it can be.
use microfat.Base.{
  ℕ, zero, suc, some, get_elem?, ◌≡◌, ◌∙◌, refl, ap, Bool, true, false, List, [], ◌∷◌, arith, All,
  All-map, Bool-cases, inl, inr,
}
use microfat.Base.Int.{ℤ, pos, ltz, lez}
use microfat.Text.{Bytes, bytes_eq, is_empty}
use microfat.Result.{ok}
use microfat.Microarch.Level.{normalize, rank}
use microfat.Microarch.Host.{Info, canonical_arch, host_supports}
use microfat.Microarch.Policy.{
  Policy, PolicyResult, VariantCandidate, Cap, compute_effective_max_rank, build_disabled_set,
  in_set, is_candidate, candidate_of, filter_supported, filter_and_rank_candidates, is_empty_list,
  with_disabled, ranks_before, pick_first, select_compatible_variant, select_variant_for_host,
}
use microfat.Microarch.Policy.Filter.{
  filter_supported-covers, candidates-covers, IsUsable, filter_supported-IsUsable,
  candidates-IsEligible,
}
use microfat.Microarch.Policy.Sorting.{
  Sorts, Descending, Ordered-Descending, ranks_before-IsWeakOrder,
}
use microfat.Microarch.Policy.Safe.{free-selected}

-- What the policy and the host leave to choose from: the level is known, its rank is at most the
-- host's and the cap's, and it is not disabled.
pub record IsAllowed (arch : Bytes) (host_rank max_rank : ℤ) (disabled : List Bytes) (l : Bytes)
    : Type 0 where
  pub known : lez (pos 0) (rank arch (normalize l)) ≡ true
  pub within_host : lez (rank arch (normalize l)) host_rank ≡ true
  pub within_max : lez (rank arch (normalize l)) max_rank ≡ true
  pub enabled : in_set disabled (normalize l) ≡ false

allowed-candidate :
    (arch : Bytes) (host_rank max_rank : ℤ) (disabled : List Bytes) (l : Bytes)
    → IsAllowed arch host_rank max_rank disabled l
    → is_candidate host_rank max_rank disabled (candidate_of arch l) ≡ true
unfolding is_candidate candidate_of
allowed-candidate arch host_rank max_rank disabled l a =
    let k = a.known in
    let h = a.within_host in let m = a.within_max in let e = a.enabled in ground arith

rank-candidate_of : (arch l : Bytes) → (candidate_of arch l).rank_of ≡ rank arch (normalize l)
unfolding candidate_of
rank-candidate_of arch l = refl

lez_refl : (a : ℤ) → lez a a ≡ true
lez_refl a = ground arith

-- The first of a descending list has the greatest rank.
pick_first-best :
    (P : VariantCandidate → Type 0) (cap : Cap) (cs : List VariantCandidate) {res : PolicyResult}
    → All P cs
    → Descending cs
    → pick_first cap cs ≡ ok res
    → (c : VariantCandidate) × P c
      × All (λ d. lez d.rank_of c.rank_of ≡ true) cs
      × (res.selected_variant ≡ c.original)
unfolding pick_first
pick_first-best P cap [] p h e = cc
pick_first-best P cap (c ∷ cs) p h e = (c, p.0, (lez_refl c.rank_of, h.0), ground arith)

-- A test that no element passes leaves nothing.
pick_first-some :
    (cap : Cap) (cs : List VariantCandidate)
    → (All (λ c. ⊥) cs → ⊥)
    → (res : PolicyResult) × (pick_first cap cs ≡ ok res)
unfolding pick_first
pick_first-some cap [] h = absurd (h tt)
pick_first-some cap (c ∷ cs) h = (_, refl)

All-at :
    (P : Bytes → Type 0) (xs : List Bytes) (i : ℕ) (x : Bytes)
    → All P xs
    → get_elem? xs i ≡ some x
    → P x
All-at P [] i x h e = cc
All-at P (y ∷ ys) zero x h e = let at : y ≡ x = ground arith in rw (← at) h.0
All-at P (y ∷ ys) (suc i) x h e = All-at P ys i x h.1 e

nothing-empty : (xs : List Bytes) → (All (λ x. ⊥) xs → ⊥) → is_empty_list xs ≡ false
unfolding is_empty_list
nothing-empty [] h = absurd (h tt)
nothing-empty (x ∷ xs) h = refl

supported-nonempty :
    (host : Info) (available : List Bytes) (i : ℕ) (l : Bytes)
    → get_elem? available i ≡ some l
    → host_supports host l ≡ true
    → is_empty_list (filter_supported host available) ≡ false
supported-nonempty host available i l m s =
    nothing-empty (filter_supported host available)
      (λ h. All-at _ available i l (filter_supported-covers host _ available h) m s)

module _
    {sort : (VariantCandidate → VariantCandidate → Bool)
      → List VariantCandidate
      → List VariantCandidate}
    (sorts : Sorts sort) (downclocks : Bool) (arch : Bytes) (host : Info) (available : List Bytes)
    (policy : Policy) where
  abbrev max_rank_of : ℤ
  max_rank_of = (compute_effective_max_rank downclocks arch (rank arch host.level) policy).max_rank

  abbrev Allowed : Bytes → Type 0
  Allowed =
      IsAllowed arch (rank arch host.level) max_rank_of
        (build_disabled_set policy.disabled_variants)

  abbrev candidates : List VariantCandidate
  candidates =
      filter_and_rank_candidates arch (rank arch host.level) max_rank_of
        (filter_supported host available) (build_disabled_set policy.disabled_variants)

  -- What holds of all candidates holds of a level that is supported and allowed.
  candidates-at :
      (P : VariantCandidate → Type 0) (i : ℕ) (l : Bytes)
      → All P candidates
      → get_elem? available i ≡ some l
      → host_supports host l ≡ true
      → Allowed l
      → P (candidate_of arch l)
  candidates-at P i l h m s a =
      All-at _ available i l
        (filter_supported-covers host _ available (
          candidates-covers arch (rank arch host.level) max_rank_of
            (build_disabled_set policy.disabled_variants) P (filter_supported host available) h))
        m s
        (allowed-candidate arch (rank arch host.level) max_rank_of
          (build_disabled_set policy.disabled_variants) l a)

  -- What the checks before the choice leave to do.
  reaches-choice :
      (i : ℕ) (l : Bytes)
      → bytes_eq (canonical_arch arch) (canonical_arch host.arch) ≡ true
      → is_empty policy.force_level ≡ true
      → get_elem? available i ≡ some l
      → host_supports host l ≡ true
      → Allowed l
      → select_variant_for_host sort downclocks arch host available policy
        ≡ pick_first
            (with_disabled policy.disabled_variants
              (compute_effective_max_rank downclocks arch (rank arch host.level) policy))
            (sort ranks_before candidates)
  unfolding select_variant_for_host select_compatible_variant is_empty_list
  reaches-choice i l same f m s a =
      let some_level = supported-nonempty host available i l m s in
      let low = a.known in
      let within = a.within_host in
      let known : ltz (rank arch host.level) (pos 0) ≡ false = ground arith in
      rw (same, f, some_level, known)
        (elim (Bool-cases (is_empty_list available)) [ inl e ↦ rw e refl | inr e ↦ rw e refl ])

  -- Without a forced level, and on a binary of the host's architecture, a variant is selected as soon
  -- as one of the available levels is supported by the host and allowed by the policy: a known level,
  -- not disabled, of a rank within the host's and the policy's.
  pub select-succeeds :
      (i : ℕ) (l : Bytes)
      → bytes_eq (canonical_arch arch) (canonical_arch host.arch) ≡ true
      → is_empty policy.force_level ≡ true
      → get_elem? available i ≡ some l
      → host_supports host l ≡ true
      → Allowed l
      → (res : PolicyResult) × (select_variant_for_host sort downclocks arch host available policy
          ≡ ok res)
  select-succeeds i l same f m s a =
      let (res, e) =
        pick_first-some
          (with_disabled policy.disabled_variants
            (compute_effective_max_rank downclocks arch (rank arch host.level) policy))
          (sort ranks_before candidates)
          (λ none. candidates-at (λ c. ⊥) i l (sorts.covers ranks_before _ _ none) m s a) in
      (res, reaches-choice i l same f m s a ∙ e)

  -- Without a forced level, and with a sort that keeps what `sort.Slice` promises, what is selected has
  -- the greatest rank: every available level that the host supports and the policy allows has a rank that
  -- is at most that of the selected variant.
  pub selected-best :
      {res : PolicyResult}
      → select_variant_for_host sort downclocks arch host available policy ≡ ok res
      → is_empty policy.force_level ≡ true
      → (i : ℕ) (l : Bytes) → get_elem? available i ≡ some l
      → host_supports host l ≡ true
      → Allowed l
      → lez (rank arch (normalize l)) (rank arch (normalize res.selected_variant)) ≡ true
  selected-best selected f i l m s a =
      let (c, made, below, at) =
        pick_first-best (λ c. c ≡ candidate_of arch c.original) _ (sort ranks_before candidates)
          (sorts.keeps ranks_before _ _ (
            All-map _ _ (λ c e. e.made) _
              (candidates-IsEligible arch (rank arch host.level) max_rank_of
                (build_disabled_set policy.disabled_variants) (IsUsable host available)
                (filter_supported host available) (filter_supported-IsUsable host available))))
          (Ordered-Descending _ (sorts.orders ranks_before ranks_before-IsWeakOrder candidates))
          (free-selected sorts downclocks arch host available policy selected f) in
      let top = candidates-at _ i l (sorts.covers ranks_before _ _ below) m s a in
      let rank_c : c.rank_of ≡ rank arch (normalize c.original) =
        ap (λ x. x.rank_of) made ∙ rank-candidate_of arch c.original in
      rw (at, ← rank_c, ← rank-candidate_of arch l) top
