-- ===== src/Cgroup/Hierarchy/Walk.antt =====
-- Lemmas on the loop over the parent directories in internal/cgroup/cgroup.go: where it stops, and its steps.
use microfat.Base.{
  ℕ, zero, suc, ◌<◌, ◌≡◌, ◌⊎◌, inl, inr, refl, ◌∙◌, Bool, true, false, not, ◌||◌, List, [], ◌∷◌,
  arith, All, length, Bool-cases, if◌then◌else◌,
}
use microfat.Text.{Bytes, codes, bytes_eq, has_prefix}
use microfat.Text.Laws.{bytes_eq_iff}
use microfat.Result.{Result, ok, err, panic, ◌>>=◌}
use microfat.Result.Yields.{Yields, Yields-bind, Yields-if, Yields-ok, Yields-panic}
use microfat.Cgroup.Paths.{Files, CgroupError, is_subpath}
use microfat.Cgroup.Hierarchy.{traverse, enough}

-- The directory of an absolute path is absolute, and the path itself or shorter. Of relative paths nothing is said:
-- the directory of "" and of "a" is ".".
abbrev pub IsShrinking : Files → Type 0
IsShrinking fs =
    (path : Bytes)
    → has_prefix path (codes "/") ≡ true
    → (has_prefix (fs.dir path) (codes "/") ≡ true)
      × ((fs.dir path ≡ path) ⊎ (length (fs.dir path) < length path))

-- Where the loop stops.
abbrev pub is_last : Files → Bytes → Bytes → Bool
is_last fs root curr =
    bytes_eq curr root || bytes_eq (fs.dir curr) curr || not (is_subpath root (fs.dir curr))

-- The directories from a path up to the last.
abbrev pub ancestors : Files → Bytes → ℕ → Bytes → List Bytes
ancestors fs root zero curr = []
ancestors fs root (suc fuel) curr =
    let rest = ancestors fs root fuel (fs.dir curr) in
    if is_last fs root curr then curr ∷ [] else curr ∷ rest

-- What is read of directories in turn, and what is kept of it in turn.
abbrev pub read_all :
    {V : Type 0} → (Bytes → Result CgroupError V) → List Bytes → Result CgroupError (List V)
read_all read [] = ok []
read_all read (d ∷ ds) = read d >>= λ v. read_all read ds >>= λ vs. ok (v ∷ vs)

abbrev pub keep_all : {V S : Type 0} → (S → V → S) → S → List V → S
keep_all keep s [] = s
keep_all keep s (v ∷ vs) = keep_all keep (keep s v) vs

-- One directory of the loop, by what is read of it: the last one, and one with others behind it.
module _ {V S : Type 0} (keep : S → V → S) (s : S) where
  read-last :
      (r : Result CgroupError V)
      → (r >>= λ v. ok (keep s v))
        ≡ ((r >>= λ v. ok [] >>= λ vs. ok (v ∷ vs)) >>= λ vs. ok (keep_all keep s vs))
  read-last panic = refl
  read-last (err e) = refl
  read-last (ok v) = refl

  push :
      (v : V) (m : Result CgroupError (List V))
      → (m >>= λ vs. ok (keep_all keep (keep s v) vs))
        ≡ ((m >>= λ vs. ok (v ∷ vs)) >>= λ vs. ok (keep_all keep s vs))
  push v panic = refl
  push v (err e) = refl
  push v (ok vs) = refl

  read-more :
      (r : Result CgroupError V) (m : Result CgroupError (List V)) (rest : V → Result CgroupError S)
      → ((v : V) → rest v ≡ (m >>= λ vs. ok (keep_all keep (keep s v) vs)))
      → (r >>= rest) ≡ ((r >>= λ v. m >>= λ vs. ok (v ∷ vs)) >>= λ vs. ok (keep_all keep s vs))
  read-more panic m rest h = refl
  read-more (err e) m rest h = refl
  read-more (ok v) m rest h = h v ∙ push v m

module _ (fs : Files) (shrinks : IsShrinking fs) (root : Bytes) where
  shorter :
      (curr : Bytes)
      → has_prefix curr (codes "/") ≡ true
      → is_last fs root curr ≡ false
      → length (fs.dir curr) < length curr
  shorter curr absolute more = elim (shrinks curr absolute).1 [
    | inl same ↦
        let own : bytes_eq (fs.dir curr) curr ≡ true = (bytes_eq_iff (fs.dir curr) curr).1 same in
        absurd (ground (arith, more, own))
    | inr less ↦ less
  ]

  module _ {V S : Type 0} (read : Bytes → Result CgroupError V) (keep : S → V → S) where
    -- With fuel for each byte of the path.
    traverse-fuel :
        (fuel : ℕ) (curr : Bytes) (s : S)
        → has_prefix curr (codes "/") ≡ true
        → length curr < fuel
        → traverse fs read keep root fuel curr s
          ≡ (read_all read (ancestors fs root fuel curr) >>= λ vs. ok (keep_all keep s vs))
    unfolding traverse
    traverse-fuel zero curr s absolute h = absurd (omega (arith, h))
    traverse-fuel (suc fuel) curr s absolute h = elim (Bool-cases (is_last fs root curr)) [
      | inl last ↦ rw last (read-last keep s (read curr))
      | inr more ↦ rw more (
          read-more keep s (read curr) (read_all read (ancestors fs root fuel (fs.dir curr)))
            (λ v. traverse fs read keep root fuel (fs.dir curr) (keep s v))
            (λ v.
              traverse-fuel fuel (fs.dir curr) (keep s v) (shrinks curr absolute).0
                (omega (arith, h, shorter curr absolute more))))
    ]

    -- Where the directory of an absolute path is absolute, and the path itself or shorter, the loop from an absolute
    -- path ends, and is the reading of the directories up to the root in turn, the first error included, with what is
    -- read kept in turn.
    pub traverse-ancestors :
        (target : Bytes) (s : S)
        → has_prefix target (codes "/") ≡ true
        → traverse fs read keep root (enough target) target s ≡ (
            read_all read (ancestors fs root (enough target) target) >>= λ vs.
            ok (keep_all keep s vs))
    traverse-ancestors target s absolute =
        traverse-fuel (enough target) target s absolute (omega arith)

-- Every directory that the loop reads is the root or below it, where the first is.
pub ancestors-within :
    (fs : Files) (root : Bytes) (fuel : ℕ) (curr : Bytes)
    → is_subpath root curr ≡ true
    → All (λ d. is_subpath root d ≡ true) (ancestors fs root fuel curr)
ancestors-within fs root zero curr h = tt
ancestors-within fs root (suc fuel) curr h = elim (Bool-cases (is_last fs root curr)) [
  | inl last ↦ rw last (h, tt)
  | inr more ↦ rw more (h, ancestors-within fs root fuel (fs.dir curr) (ground (arith, more)))
]

-- What holds of the start and is kept by every step holds where the loop ends.
pub traverse-Yields :
    {V S : Type 0} {P : V → Type 0} {Q : S → Type 0} (fs : Files)
    (read : Bytes → Result CgroupError V) (keep : S → V → S) (root : Bytes)
    → ((d : Bytes) → Yields P (read d))
    → ((s : S) (v : V) → Q s → P v → Q (keep s v))
    → (fuel : ℕ) (curr : Bytes) (s : S) → Q s
    → Yields Q (traverse fs read keep root fuel curr s)
unfolding traverse
traverse-Yields fs read keep root reads keeps zero curr s h = Yields-panic
traverse-Yields fs read keep root reads keeps (suc fuel) curr s h =
    Yields-bind (read curr) _ (reads curr) (λ v p.
      Yields-if (is_last fs root curr) _ _ (Yields-ok (keep s v) (keeps s v h p)) (
        traverse-Yields fs read keep root reads keeps fuel (fs.dir curr) (keep s v)
          (keeps s v h p)))
