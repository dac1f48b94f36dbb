-- ===== src/Pack/Abi/Inspect/Sorting.antt =====
-- The members of what `normalizeVersionRequirements` returns.
use microfat.Pack.Abi.Inspect.Increasing.{
  IsIncreasing, IsDistinct, Differs, sort_requirements-IsIncreasing,
}
use microfat.Pack.Abi.Inspect.Order.{InOrder, IsIncreasing-InOrder}
use microfat.Base.{
  ◌≡◌, refl, ◌∙◌, inl, inr, Bool, true, false, not, ◌&&◌, ◌||◌, Bool-cases, List, [], ◌∷◌, ltb,
  length, All, arith,
}
use microfat.Text.Laws.{bytes_eq_refl, eq_of_bytes_eq}
use microfat.Pack.Abi.Report.{VersionRequirement}
use microfat.Pack.Abi.Inspect.{
  same_requirement, is_seen, distinct_from, requirement_less, insert_requirement, sort_requirements,
  normalize_version_requirements,
}

-- Equal requirements are seen alike.
is_seen_congr :
    (a b : VersionRequirement) (rs : List VersionRequirement)
    → same_requirement a b ≡ true
    → is_seen a rs ≡ is_seen b rs
unfolding is_seen same_requirement
is_seen_congr a b [] h = refl
is_seen_congr a b (r ∷ rs) h =
    let l : a.library ≡ b.library = eq_of_bytes_eq a.library b.library (ground arith) in
    let v : a.version ≡ b.version = eq_of_bytes_eq a.version b.version (ground arith) in
    let f : a.flags ≡ b.flags = ground arith in rw (l, v, f, is_seen_congr a b rs h) refl

is_seen_self : (r : VersionRequirement) (rs : List VersionRequirement) → is_seen r (r ∷ rs) ≡ true
unfolding is_seen same_requirement
is_seen_self r rs = ground (arith, bytes_eq_refl r.library, bytes_eq_refl r.version)

is_seen-cons :
    (v r : VersionRequirement) (rs : List VersionRequirement)
    → is_seen v rs ≡ true
    → is_seen v (r ∷ rs) ≡ true
unfolding is_seen
is_seen-cons v r rs h = ground arith

-- What is kept was not seen before, so that no two are the same.
distinct_from-unseen :
    (a : VersionRequirement) (seen rs : List VersionRequirement)
    → is_seen a seen ≡ true
    → Differs a (distinct_from seen rs)
unfolding distinct_from is_seen
distinct_from-unseen a seen [] h = tt
distinct_from-unseen a seen (r ∷ rs) h = elim (Bool-cases (is_seen r seen)) [
  | inl old ↦ rw old (distinct_from-unseen a seen rs h)
  | inr new ↦
      let other : same_requirement a r ≡ false = ground (arith, is_seen_congr a r seen) in
      rw new (other, distinct_from-unseen a (r ∷ seen) rs (is_seen-cons a r seen h))
]

distinct_from-IsDistinct : (seen rs : List VersionRequirement) → IsDistinct (distinct_from seen rs)
unfolding distinct_from
distinct_from-IsDistinct seen [] = tt
distinct_from-IsDistinct seen (r ∷ rs) = elim (Bool-cases (is_seen r seen)) [
  | inl old ↦ rw old (distinct_from-IsDistinct seen rs)
  | inr new ↦ rw new (
    distinct_from-unseen r (r ∷ seen) rs (is_seen_self r seen),
    distinct_from-IsDistinct (r ∷ seen) rs,
  )
]

-- The members, as the code tests for them.
is_seen-insert :
    (v r : VersionRequirement) (rs : List VersionRequirement)
    → is_seen v (insert_requirement r rs) ≡ (same_requirement v r || is_seen v rs)
unfolding is_seen insert_requirement
is_seen-insert v r [] = refl
is_seen-insert v r (s ∷ ss) = ground (arith, is_seen-insert v r ss)

is_seen-sort :
    (v : VersionRequirement) (rs : List VersionRequirement)
    → is_seen v (sort_requirements rs) ≡ is_seen v rs
unfolding is_seen sort_requirements
is_seen-sort v [] = refl
is_seen-sort v (r ∷ rs) =
    ground (arith, is_seen-insert v r (sort_requirements rs), is_seen-sort v rs)

is_seen-distinct_from :
    (v : VersionRequirement) (seen rs : List VersionRequirement)
    → is_seen v (distinct_from seen rs) ≡ (is_seen v rs && not (is_seen v seen))
unfolding is_seen distinct_from
is_seen-distinct_from v seen [] = refl
is_seen-distinct_from v seen (r ∷ rs) = elim (Bool-cases (is_seen r seen)) [
  | inl old ↦ rw old (ground (arith, is_seen-distinct_from v seen rs, is_seen_congr v r seen))
  | inr new ↦ rw new (ground (arith, is_seen-distinct_from v (r ∷ seen) rs, is_seen_congr v r seen))
]

unseen : (b : Bool) (v : VersionRequirement) → (b && not (is_seen v [])) ≡ b
unfolding is_seen
unseen true v = refl
unseen false v = refl

-- The requirements that are returned increase strictly, by library, then by version, then by flags, texts in
-- lexicographic order; and a requirement is among them exactly where it is among those that were given.
pub normalize_version_requirements-IsIncreasing :
    (reqs : List VersionRequirement)
    → IsIncreasing (normalize_version_requirements reqs)
      × InOrder (normalize_version_requirements reqs)
      × ((v : VersionRequirement)
          → is_seen v (normalize_version_requirements reqs) ≡ is_seen v reqs)
unfolding normalize_version_requirements
normalize_version_requirements-IsIncreasing [] = (tt, tt, λ v. refl)
normalize_version_requirements-IsIncreasing (r ∷ []) = (tt, tt, λ v. refl)
normalize_version_requirements-IsIncreasing (r ∷ s ∷ rs) =
    let all = r ∷ s ∷ rs in
    let many : ltb 1 (length all) ≡ true = ground arith in
    let increasing =
      sort_requirements-IsIncreasing (distinct_from [] all) (distinct_from-IsDistinct [] all) in
    rw many (
      increasing,
      IsIncreasing-InOrder _ increasing,
      λ v.
          is_seen-sort v (distinct_from [] all)
          ∙ (is_seen-distinct_from v [] all ∙ unseen (is_seen v all) v),
    )

module _ (P : VersionRequirement → Type 0) where
  All-insert :
      (r : VersionRequirement) (rs : List VersionRequirement)
      → P r
      → All P rs
      → All P (insert_requirement r rs)
  unfolding insert_requirement
  All-insert r [] h hs = (h, tt)
  All-insert r (s ∷ ss) h (k, ks) = elim (Bool-cases (requirement_less r s)) [
    | inl less ↦ rw less (h, (k, ks))
    | inr more ↦ rw more (k, All-insert r ss h ks)
  ]

  All-sort : (rs : List VersionRequirement) → All P rs → All P (sort_requirements rs)
  unfolding sort_requirements
  All-sort [] hs = tt
  All-sort (r ∷ rs) (h, hs) = All-insert r (sort_requirements rs) h (All-sort rs hs)

  All-distinct : (seen rs : List VersionRequirement) → All P rs → All P (distinct_from seen rs)
  unfolding distinct_from
  All-distinct seen [] hs = tt
  All-distinct seen (r ∷ rs) (h, hs) = elim (Bool-cases (is_seen r seen)) [
    | inl old ↦ rw old (All-distinct seen rs hs)
    | inr new ↦ rw new (h, All-distinct (r ∷ seen) rs hs)
  ]

  pub All-normalize :
      (reqs : List VersionRequirement) → All P reqs → All P (normalize_version_requirements reqs)
  unfolding normalize_version_requirements
  All-normalize reqs hs = elim (Bool-cases (ltb 1 (length reqs))) [
    | inl many ↦ rw many (All-sort (distinct_from [] reqs) (All-distinct [] reqs hs))
    | inr few ↦ rw few hs
  ]
