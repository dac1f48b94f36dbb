-- ===== src/Pack/Abi/Inspect/Increasing.antt =====
-- The order of `normalizeVersionRequirements`.
use microfat.Base.{◌≡◌, refl, inl, inr, true, false, Bool-cases, List, [], ◌∷◌, All, arith}
use microfat.Text.{Bytes, bytes_eq}
use microfat.Pack.Abi.Report.{VersionRequirement}
use microfat.Pack.Abi.Inspect.{
  same_requirement, bytes_less, requirement_less, insert_requirement, sort_requirements,
}

-- Each requirement is less than the next.
abbrev pub IsIncreasing : List VersionRequirement → Type 0
IsIncreasing [] = Unit
IsIncreasing (r ∷ []) = Unit
IsIncreasing (r ∷ s ∷ rs) = (requirement_less r s ≡ true) × IsIncreasing (s ∷ rs)

bytes_less_total :
    (s t : Bytes) → bytes_eq s t ≡ false → bytes_less s t ≡ false → bytes_less t s ≡ true
unfolding bytes_eq bytes_less
bytes_less_total [] [] e h = cc
bytes_less_total [] (b ∷ t) e h = cc
bytes_less_total (a ∷ s) [] e h = refl
bytes_less_total (a ∷ s) (b ∷ t) e h = ground (arith, bytes_less_total s t)

bytes_eq_comm : (s t : Bytes) → bytes_eq s t ≡ bytes_eq t s
unfolding bytes_eq
bytes_eq_comm [] [] = refl
bytes_eq_comm [] (b ∷ t) = refl
bytes_eq_comm (a ∷ s) [] = refl
bytes_eq_comm (a ∷ s) (b ∷ t) = ground (arith, bytes_eq_comm s t)

same_requirement_comm : (a b : VersionRequirement) → same_requirement a b ≡ same_requirement b a
unfolding same_requirement
same_requirement_comm a b =
    ground (arith, bytes_eq_comm a.library b.library, bytes_eq_comm a.version b.version)

-- Of two different requirements one is less.
requirement_less_total :
    (a b : VersionRequirement)
    → same_requirement a b ≡ false
    → requirement_less a b ≡ false
    → requirement_less b a ≡ true
unfolding same_requirement requirement_less
requirement_less_total a b e h = ground (
  arith,
  bytes_eq_comm a.library b.library,
  bytes_eq_comm a.version b.version,
  bytes_less_total a.library b.library,
  bytes_less_total a.version b.version,
)

-- A requirement that differs from each of a list.
abbrev pub Differs : VersionRequirement → List VersionRequirement → Type 0
Differs r = All (λ s. same_requirement r s ≡ false)

abbrev pub IsDistinct : List VersionRequirement → Type 0
IsDistinct [] = Unit
IsDistinct (r ∷ rs) = Differs r rs × IsDistinct rs

-- Above a lower bound.
abbrev Above : VersionRequirement → List VersionRequirement → Type 0
Above r [] = Unit
Above r (s ∷ ss) = requirement_less r s ≡ true

IsIncreasing-cons :
    (r : VersionRequirement) (rs : List VersionRequirement)
    → Above r rs
    → IsIncreasing rs
    → IsIncreasing (r ∷ rs)
IsIncreasing-cons r [] h k = tt
IsIncreasing-cons r (s ∷ ss) h k = (h, k)

IsIncreasing-tail :
    (r : VersionRequirement) (rs : List VersionRequirement)
    → IsIncreasing (r ∷ rs)
    → IsIncreasing rs × Above r rs
IsIncreasing-tail r [] h = (tt, tt)
IsIncreasing-tail r (s ∷ ss) h = (h.1, h.0)

insert_requirement-Above :
    (b r : VersionRequirement) (rs : List VersionRequirement)
    → requirement_less b r ≡ true
    → Above b rs
    → Above b (insert_requirement r rs)
unfolding insert_requirement
insert_requirement-Above b r [] h k = h
insert_requirement-Above b r (s ∷ ss) h k = elim (Bool-cases (requirement_less r s)) [
  | inl less ↦ rw less h
  | inr more ↦ rw more k
]

insert_requirement-IsIncreasing :
    (r : VersionRequirement) (rs : List VersionRequirement)
    → Differs r rs
    → IsIncreasing rs
    → IsIncreasing (insert_requirement r rs)
unfolding insert_requirement
insert_requirement-IsIncreasing r [] d h = tt
insert_requirement-IsIncreasing r (s ∷ ss) (d, ds) h = elim (Bool-cases (requirement_less r s)) [
  | inl less ↦ rw less (less, h)
  | inr more ↦
      let (rest, above) = IsIncreasing-tail s ss h in
      rw more (
        IsIncreasing-cons s (insert_requirement r ss)
          (insert_requirement-Above s r ss (requirement_less_total r s d more) above)
          (insert_requirement-IsIncreasing r ss ds rest))
]

insert_requirement-Differs :
    (a r : VersionRequirement) (rs : List VersionRequirement)
    → same_requirement a r ≡ false
    → Differs a rs
    → Differs a (insert_requirement r rs)
unfolding insert_requirement
insert_requirement-Differs a r [] h k = (h, tt)
insert_requirement-Differs a r (s ∷ ss) h (k, ks) = elim (Bool-cases (requirement_less r s)) [
  | inl less ↦ rw less (h, (k, ks))
  | inr more ↦ rw more (k, insert_requirement-Differs a r ss h ks)
]

sort_requirements-Differs :
    (a : VersionRequirement) (rs : List VersionRequirement)
    → Differs a rs
    → Differs a (sort_requirements rs)
unfolding sort_requirements
sort_requirements-Differs a [] h = tt
sort_requirements-Differs a (r ∷ rs) (h, hs) =
    insert_requirement-Differs a r _ h (sort_requirements-Differs a rs hs)

pub sort_requirements-IsIncreasing :
    (rs : List VersionRequirement) → IsDistinct rs → IsIncreasing (sort_requirements rs)
unfolding sort_requirements
sort_requirements-IsIncreasing [] d = tt
sort_requirements-IsIncreasing (r ∷ rs) (d, ds) =
    insert_requirement-IsIncreasing r (sort_requirements rs) (sort_requirements-Differs r rs d)
      (sort_requirements-IsIncreasing rs ds)
