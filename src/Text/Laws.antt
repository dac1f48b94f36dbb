-- ===== src/Text/Laws.antt =====
-- Equality of byte strings.
use microfat.Base.{ℕ, ◌≡◌, refl, true, false, ◌↔◌, ◌⊎◌, inl, inr, [], ◌∷◌, arith, Bool-cases}
use microfat.Text.{Bytes, bytes_eq, lower_byte, to_lower}

pub bytes_eq_refl : (a : Bytes) → bytes_eq a a ≡ true
unfolding bytes_eq
bytes_eq_refl [] = refl
bytes_eq_refl (a ∷ s) = ground (arith, bytes_eq_refl s)

pub eq_of_bytes_eq : (a b : Bytes) → bytes_eq a b ≡ true → a ≡ b
unfolding bytes_eq
eq_of_bytes_eq [] [] h = refl
eq_of_bytes_eq [] (b ∷ t) h = cc
eq_of_bytes_eq (a ∷ s) [] h = cc
eq_of_bytes_eq (a ∷ s) (b ∷ t) h = ground (arith, eq_of_bytes_eq s t)

pub bytes_eq_iff : (a b : Bytes) → (bytes_eq a b ≡ true) ↔ (a ≡ b)
bytes_eq_iff a b = (eq_of_bytes_eq a b, λ e. rw e (bytes_eq_refl b))

pub bytes_eq-cases : (a b : Bytes) → (a ≡ b) ⊎ (bytes_eq a b ≡ false)
bytes_eq-cases a b = elim (Bool-cases (bytes_eq a b)) [
  | inl e ↦ inl (eq_of_bytes_eq a b e)
  | inr e ↦ inr e
]

pub lower_byte_idem : (c : ℕ) → lower_byte (lower_byte c) ≡ lower_byte c
unfolding lower_byte
lower_byte_idem c = ground arith

-- Lower case is reached in one step.
pub to_lower_idem : (s : Bytes) → to_lower (to_lower s) ≡ to_lower s
unfolding to_lower
to_lower_idem [] = refl
to_lower_idem (c ∷ s) = cc (lower_byte_idem c, to_lower_idem s)
