-- ===== src/Microarch/Policy/Sorting.antt =====
-- What `sort.Slice` promises of a slice and a comparator, a sort that keeps the promise, and the comparator of
-- `selectCompatibleVariant` in internal/microarch/microarch.go.
use microfat.Base.{
  ◌≡◌, Bool, true, false, List, [], ◌∷◌, arith, All, All-map, Bool-cases, inl, inr, if◌then◌else◌,
}
use microfat.Base.Int.{ℤ, lez}
use microfat.Microarch.Policy.{VariantCandidate, ranks_before}

-- A strict weak order, which `sort.Slice` asks of its comparator.
pub record IsWeakOrder {A : Type 0} (less : A → A → Bool) : Type 0 where
  pub asymmetric : (x y : A) → less x y ≡ true → less y x ≡ false
  pub negative : (x y z : A) → less x y ≡ false → less y z ≡ false → less x z ≡ false

-- No element is less than one before it.
abbrev pub Ordered : {A : Type 0} → (A → A → Bool) → List A → Type 0
Ordered less [] = Unit
Ordered less (x ∷ xs) = All (λ y. less y x ≡ false) xs × Ordered less xs

-- The result holds the same elements, in order by the comparator; the order of equal elements is open.
pub record Sorts {A : Type 0} (sort : (A → A → Bool) → List A → List A) : Type 1 where
  pub keeps : (less : A → A → Bool) (P : A → Type 0) (xs : List A) → All P xs → All P (sort less xs)
  pub covers :
      (less : A → A → Bool) (P : A → Type 0) (xs : List A) → All P (sort less xs) → All P xs
  pub orders :
      (less : A → A → Bool) → IsWeakOrder less → (xs : List A) → Ordered less (sort less xs)

-- No candidate is followed by one of a greater rank.
abbrev pub Descending : List VariantCandidate → Type 0
Descending [] = Unit
Descending (c ∷ cs) = All (λ d. lez d.rank_of c.rank_of ≡ true) cs × Descending cs

pub lez_trans : (a b c : ℤ) → lez a b ≡ true → lez b c ≡ true → lez a c ≡ true
lez_trans a b c h k = ground arith

pub ranks_before-IsWeakOrder : IsWeakOrder ranks_before
unfolding ranks_before
ranks_before-IsWeakOrder = record {
  asymmetric = λ x y h. ground (arith, h);
  negative = λ x y z h k. ground (arith, h, k);
}

ranks_before-lez :
    (c d : VariantCandidate) → ranks_before d c ≡ false → lez d.rank_of c.rank_of ≡ true
unfolding ranks_before
ranks_before-lez c d h = ground (arith, h)

-- In order by the comparator of the code, the ranks descend.
pub Ordered-Descending : (cs : List VariantCandidate) → Ordered ranks_before cs → Descending cs
Ordered-Descending [] h = tt
Ordered-Descending (c ∷ cs) (h, hs) =
    (All-map _ _ (λ d k. ranks_before-lez c d k) cs h, Ordered-Descending cs hs)

abbrev insert : {A : Type 0} → (A → A → Bool) → A → List A → List A
insert less x [] = x ∷ []
insert less x (y ∷ ys) = let rest = insert less x ys in if less y x then y ∷ rest else x ∷ y ∷ ys

abbrev pub insertion_sort : {A : Type 0} → (A → A → Bool) → List A → List A
insertion_sort less [] = []
insertion_sort less (x ∷ xs) = insert less x (insertion_sort less xs)

module _ {A : Type 0} (less : A → A → Bool) where
  insert-All : (P : A → Type 0) (x : A) (ys : List A) → P x → All P ys → All P (insert less x ys)
  insert-All P x [] p h = (p, tt)
  insert-All P x (y ∷ ys) p (q, qs) = elim (Bool-cases (less y x)) [
    | inl e ↦ rw e (q, insert-All P x ys p qs)
    | inr e ↦ rw e (p, (q, qs))
  ]

  All-insert : (P : A → Type 0) (x : A) (ys : List A) → All P (insert less x ys) → P x × All P ys
  All-insert P x [] h = h
  All-insert P x (y ∷ ys) h = elim (Bool-cases (less y x)) [
    | inl e ↦
        let k : All P (y ∷ insert less x ys) = rw e at h in
        let (p, ps) = All-insert P x ys k.1 in (p, (k.0, ps))
    | inr e ↦ let k : All P (x ∷ y ∷ ys) = rw e at h in k
  ]

  sort-keeps : (P : A → Type 0) (xs : List A) → All P xs → All P (insertion_sort less xs)
  sort-keeps P [] h = h
  sort-keeps P (x ∷ xs) (p, ps) = insert-All P x (insertion_sort less xs) p (sort-keeps P xs ps)

  sort-covers : (P : A → Type 0) (xs : List A) → All P (insertion_sort less xs) → All P xs
  sort-covers P [] h = h
  sort-covers P (x ∷ xs) h =
      let (p, ps) = All-insert P x (insertion_sort less xs) h in (p, sort-covers P xs ps)

  module _ (order : IsWeakOrder less) where
    insert-Ordered : (x : A) (ys : List A) → Ordered less ys → Ordered less (insert less x ys)
    insert-Ordered x [] h = (tt, tt)
    insert-Ordered x (y ∷ ys) (h, hs) = elim (Bool-cases (less y x)) [
      | inl e ↦ rw e (insert-All _ x ys (order.asymmetric y x e) h, insert-Ordered x ys hs)
      | inr e ↦ rw e ((e, All-map _ _ (λ z k. order.negative z y x k e) ys h), (h, hs))
    ]

    sort-orders : (xs : List A) → Ordered less (insertion_sort less xs)
    sort-orders [] = tt
    sort-orders (x ∷ xs) = insert-Ordered x (insertion_sort less xs) (sort-orders xs)

-- The promise can be kept.
pub insertion_sort-Sorts : {A : Type 0} → Sorts {A = A} insertion_sort
insertion_sort-Sorts = record { keeps = sort-keeps; covers = sort-covers; orders = sort-orders }
