-- ===== src/Microarch/Policy/Filter.antt =====
-- The lists that the selection works on: what is in them, and what they leave out.
use mathlib.Core.List.{Mem, mem-cons}
use mathlib.Core.Logic.Or
use microfat.Base.{◌≡◌, refl, true, List, [], ◌∷◌, All, All-map, Bool-cases, inl, inr}
use microfat.Base.Int.{ℤ}
use microfat.Text.{Bytes}
use microfat.Microarch.Host.{Info, host_supports}
use microfat.Microarch.Policy.{
  VariantCandidate, filter_supported, is_candidate, candidate_of, filter_and_rank_candidates,
}

All-Mem : (xs : List Bytes) → All (λ x. Mem x xs) xs
All-Mem [] = tt
All-Mem (x ∷ xs) =
    (mem-cons.1 (Or.inl refl), All-map _ _ (λ y m. mem-cons.1 (Or.inr m)) xs (All-Mem xs))

-- Embedded in the file, and able to run on the host.
pub record IsUsable (host : Info) (available : List Bytes) (l : Bytes) : Type 0 where
  pub embedded : Mem l available
  pub supported : host_supports host l ≡ true

filter_supported-All :
    (host : Info) (P : Bytes → Type 0) (levels : List Bytes)
    → All P levels
    → All (λ l. P l × (host_supports host l ≡ true)) (filter_supported host levels)
unfolding filter_supported
filter_supported-All host P [] h = tt
filter_supported-All host P (l ∷ levels) (p, ps) = elim (Bool-cases (host_supports host l)) [
  | inl e ↦ rw e ((p, e), filter_supported-All host P levels ps)
  | inr e ↦ rw e (filter_supported-All host P levels ps)
]

pub filter_supported-IsUsable :
    (host : Info) (available : List Bytes)
    → All (IsUsable host available) (filter_supported host available)
filter_supported-IsUsable host available =
    All-map _ _ (λ l p. record { embedded = p.0; supported = p.1 }) _
      (filter_supported-All host (λ l. Mem l available) available (All-Mem available))

-- What a candidate is made from.
pub record IsEligible (arch : Bytes) (P : Bytes → Type 0) (host_rank max_rank : ℤ)
    (disabled : List Bytes) (c : VariantCandidate) : Type 0 where
  pub source : P c.original
  pub made : c ≡ candidate_of arch c.original
  pub passes : is_candidate host_rank max_rank disabled c ≡ true

module _ (arch : Bytes) (host_rank max_rank : ℤ) (disabled : List Bytes) where
  pub candidates-IsEligible :
      (P : Bytes → Type 0) (levels : List Bytes)
      → All P levels
      → All
          (IsEligible arch P host_rank max_rank disabled)
          (filter_and_rank_candidates arch host_rank max_rank levels disabled)
  unfolding filter_and_rank_candidates
  candidates-IsEligible P [] h = tt
  candidates-IsEligible P (l ∷ levels) (p, ps) =
      elim (Bool-cases (is_candidate host_rank max_rank disabled (candidate_of arch l))) [
        | inl e ↦ rw e (
          record {
            source = unfold candidate_of in p;
            made = unfold candidate_of in refl;
            passes = e;
          },
          candidates-IsEligible P levels ps,
        )
        | inr e ↦ rw e (candidates-IsEligible P levels ps)
      ]

-- The other way round: what holds of all that is kept holds of each element that passes the test.
pub filter_supported-covers :
    (host : Info) (P : Bytes → Type 0) (levels : List Bytes)
    → All P (filter_supported host levels)
    → All (λ l. host_supports host l ≡ true → P l) levels
unfolding filter_supported
filter_supported-covers host P [] h = tt
filter_supported-covers host P (l ∷ levels) h = elim (Bool-cases (host_supports host l)) [
  | inl e ↦
      let k : All P (l ∷ filter_supported host levels) = rw e at h in
      (λ _. k.0, filter_supported-covers host P levels k.1)
  | inr e ↦
      let k : All P (filter_supported host levels) = rw e at h in
      (λ s. cc (e, s), filter_supported-covers host P levels k)
]

module _ (arch : Bytes) (host_rank max_rank : ℤ) (disabled : List Bytes) where
  pub candidates-covers :
      (P : VariantCandidate → Type 0) (levels : List Bytes)
      → All P (filter_and_rank_candidates arch host_rank max_rank levels disabled)
      → All
          (λ l.
            is_candidate host_rank max_rank disabled (candidate_of arch l) ≡ true
            → P (candidate_of arch l))
          levels
  unfolding filter_and_rank_candidates
  candidates-covers P [] h = tt
  candidates-covers P (l ∷ levels) h =
      elim (Bool-cases (is_candidate host_rank max_rank disabled (candidate_of arch l))) [
        | inl e ↦
            let k : All P (
                candidate_of arch l
                ∷ filter_and_rank_candidates arch host_rank max_rank levels disabled) =
              rw e at h in
            (λ _. k.0, candidates-covers P levels k.1)
        | inr e ↦
            let k : All P (filter_and_rank_candidates arch host_rank max_rank levels disabled) =
              rw e at h in
            (λ s. cc (e, s), candidates-covers P levels k)
      ]
