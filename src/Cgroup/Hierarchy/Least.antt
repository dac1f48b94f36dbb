-- ===== src/Cgroup/Hierarchy/Least.antt =====
-- Lemmas on the loop over the parent directories where it returns: what it read, and the least of it.
use microfat.Base.{
  ℕ, zero, suc, ◌≡◌, ◌⊎◌, inl, inr, refl, ◌∙◌, true, false, Option, none, some, List, [], ◌∷◌,
  arith, All, Bool-cases,
}
use microfat.Words.{lt64, le64}
use microfat.Text.{Bytes}
use microfat.Result.{Result, ok}
use microfat.Result.Yields.{Yields, Yields-bind, Yields-ok, Yields-panic}
use microfat.Cgroup.Paths.{Files, CgroupError}
use microfat.Cgroup.Hierarchy.{traverse, keep_least, keep_both}
use microfat.Cgroup.Hierarchy.Walk.{is_last, ancestors, read_all, keep_all}

-- The first bound is finite where the second is, and then at most the second.
abbrev pub AtMost : Option ℕ → Option ℕ → Type 0
AtMost o none = Unit
AtMost none (some n) = ⊥
AtMost (some m) (some n) = le64 m n ≡ true

abbrev pub Occurs : Option ℕ → List (Option ℕ) → Type 0
Occurs o [] = ⊥
Occurs o (v ∷ vs) = (o ≡ v) ⊎ Occurs o vs

-- The least of bounds, of which each may be missing: none is below it, and it is one of them or there is none.
abbrev pub IsLeast : List (Option ℕ) → Option ℕ → Type 0
IsLeast vs o = All (AtMost o) vs × ((o ≡ none) ⊎ Occurs o vs)

le64_refl : (a : ℕ) → le64 a a ≡ true
le64_refl a = ground arith

le64_trans : (a b c : ℕ) → le64 a b ≡ true → le64 b c ≡ true → le64 a c ≡ true
le64_trans a b c h k = ground arith

le64-lt64 : (a b : ℕ) → lt64 a b ≡ true → le64 a b ≡ true
le64-lt64 a b h = ground arith

le64-not_lt64 : (a b : ℕ) → lt64 b a ≡ false → le64 a b ≡ true
le64-not_lt64 a b h = ground arith

AtMost-refl : (a : Option ℕ) → AtMost a a
AtMost-refl none = tt
AtMost-refl (some a) = le64_refl a

AtMost-trans : (a b c : Option ℕ) → AtMost a b → AtMost b c → AtMost a c
AtMost-trans a b none h k = tt
AtMost-trans a none (some n) h k = absurd k
AtMost-trans none (some m) (some n) h k = absurd h
AtMost-trans (some l) (some m) (some n) h k = le64_trans l m n h k

-- What one step keeps is at most both of its bounds, and is one of them.
keep_least-AtMost :
    (a b : Option ℕ)
    → AtMost (keep_least lt64 a b) a
      × AtMost (keep_least lt64 a b) b
      × ((keep_least lt64 a b ≡ a) ⊎ (keep_least lt64 a b ≡ b))
unfolding keep_least
keep_least-AtMost a none = (AtMost-refl a, tt, inl refl)
keep_least-AtMost none (some n) = (tt, le64_refl n, inr refl)
keep_least-AtMost (some m) (some n) = elim (Bool-cases (lt64 n m)) [
  | inl e ↦ rw e (le64-lt64 n m e, le64_refl n, inr refl)
  | inr e ↦ rw e (le64_refl m, le64-not_lt64 m n e, inl refl)
]

keep_all-least :
    (s : Option ℕ) (vs : List (Option ℕ))
    → AtMost (keep_all (keep_least lt64) s vs) s
      × All (AtMost (keep_all (keep_least lt64) s vs)) vs
      × ((keep_all (keep_least lt64) s vs ≡ s) ⊎ Occurs (keep_all (keep_least lt64) s vs) vs)
keep_all-least s [] = (AtMost-refl s, tt, inl refl)
keep_all-least s (v ∷ vs) =
    let (below, all_below, from) = keep_all-least (keep_least lt64 s v) vs in
    let (below_s, below_v, one) = keep_least-AtMost s v in
    (
      AtMost-trans _ _ _ below below_s,
      (AtMost-trans _ _ _ below below_v, all_below),
      elim from [
        | inr o ↦ inr (inr o)
        | inl e ↦ elim one [ inl at ↦ inl (e ∙ at) | inr at ↦ inr (inl (e ∙ at)) ]
      ],
    )

pub kept-IsLeast : (vs : List (Option ℕ)) → IsLeast vs (keep_all (keep_least lt64) none vs)
kept-IsLeast vs = let (below, all_below, from) = keep_all-least none vs in (all_below, from)

abbrev pub firsts : List (Option ℕ × Option ℕ) → List (Option ℕ)
firsts [] = []
firsts ((a, b) ∷ vs) = a ∷ firsts vs

abbrev pub seconds : List (Option ℕ × Option ℕ) → List (Option ℕ)
seconds [] = []
seconds ((a, b) ∷ vs) = b ∷ seconds vs

pub keep_all-both :
    (a b : Option ℕ) (vs : List (Option ℕ × Option ℕ))
    → keep_all keep_both (a, b) vs
      ≡ (keep_all (keep_least lt64) a (firsts vs), keep_all (keep_least lt64) b (seconds vs))
keep_all-both a b [] = refl
keep_all-both a b ((c, d) ∷ vs) = keep_all-both (keep_least lt64 a c) (keep_least lt64 b d) vs

module _ (fs : Files) (root : Bytes) {V S : Type 0} (read : Bytes → Result CgroupError V)
    (keep : S → V → S) where
  -- What was read of the directories, and what was kept of it.
  abbrev pub IsKept : ℕ → Bytes → S → S → Type 0
  IsKept fuel curr s t =
      (vs : List V) × (read_all read (ancestors fs root fuel curr) ≡ ok vs)
      × (keep_all keep s vs ≡ t)

  -- Where the loop returns, all directories were read.
  pub traverse-IsKept :
      (fuel : ℕ) (curr : Bytes) (s : S)
      → Yields (IsKept fuel curr s) (traverse fs read keep root fuel curr s)
  unfolding traverse
  traverse-IsKept zero curr s = Yields-panic
  traverse-IsKept (suc fuel) curr s = elim (Bool-cases (is_last fs root curr)) [
    | inl last ↦ rw last (
        Yields-bind {P = λ v. read curr ≡ ok v} (read curr) _ (record { of = λ v e. e })
          (λ v e. Yields-ok (keep s v) (v ∷ [], rw (last, e) refl, refl)))
    | inr more ↦ rw more (
        Yields-bind {P = λ v. read curr ≡ ok v} (read curr) _ (record { of = λ v e. e })
          (λ v e. record {
            of = λ t f.
                let (vs, reads, kept) = (traverse-IsKept fuel (fs.dir curr) (keep s v)).of t f in
                (v ∷ vs, rw (more, e, reads) refl, kept);
          }))
  ]
