-- ===== src/Microarch/Level/Idempotent.antt =====
-- A normalized level is its own normal form.
use microfat.Base.{ℕ, ◌≡◌, refl, ap, ◌∙◌, List, [], ◌∷◌, arith, ◌==◌, Bool-cases, inl, inr}
use microfat.Text.{
  Bytes, codes, is_empty, is_space, lower_byte, to_lower, trim_left, trim_right, trim_space,
  has_prefix, skip, trim_prefix,
}
use microfat.Text.Laws.{to_lower_idem}
use microfat.Microarch.Level.{level_prefixes, trim_prefixes, with_v, normalize}

-- In lower case, and with no space at its end.
record IsTrimmed (s : Bytes) : Type 0 where
  pub lower : to_lower s ≡ s
  pub trimmed : trim_right s ≡ s

tail-IsTrimmed : (c : ℕ) (s : Bytes) → IsTrimmed (c ∷ s) → IsTrimmed s
unfolding to_lower trim_right
tail-IsTrimmed c s h = ground arith

skip-IsTrimmed : (s p : Bytes) → IsTrimmed s → IsTrimmed (skip s p)
unfolding skip
skip-IsTrimmed s [] h = h
skip-IsTrimmed [] (p ∷ ps) h = h
skip-IsTrimmed (c ∷ s) (p ∷ ps) h = skip-IsTrimmed s ps (tail-IsTrimmed c s h)

trim_prefix-IsTrimmed : (s p : Bytes) → IsTrimmed s → IsTrimmed (trim_prefix s p)
unfolding trim_prefix
trim_prefix-IsTrimmed s p h = elim (Bool-cases (has_prefix s p)) [
  | inl e ↦ rw e (skip-IsTrimmed s p h)
  | inr e ↦ rw e h
]

trim_prefixes-IsTrimmed :
    (s : Bytes) (ps : List Bytes) → IsTrimmed s → IsTrimmed (trim_prefixes s ps)
unfolding trim_prefixes
trim_prefixes-IsTrimmed s [] h = h
trim_prefixes-IsTrimmed s (p ∷ ps) h =
    trim_prefixes-IsTrimmed (trim_prefix s p) ps (trim_prefix-IsTrimmed s p h)

is_space-lower : (c : ℕ) → is_space (lower_byte c) ≡ is_space c
unfolding lower_byte
is_space-lower c = ground arith

is_empty-to_lower : (s : Bytes) → is_empty (to_lower s) ≡ is_empty s
unfolding to_lower
is_empty-to_lower [] = refl
is_empty-to_lower (c ∷ s) = refl

trim_right-to_lower : (s : Bytes) → trim_right (to_lower s) ≡ to_lower (trim_right s)
unfolding trim_right to_lower
trim_right-to_lower [] = refl
trim_right-to_lower (c ∷ s) =
    ground (arith, is_space-lower c, trim_right-to_lower s, is_empty-to_lower (trim_right s))

trim_right_idem : (s : Bytes) → trim_right (trim_right s) ≡ trim_right s
unfolding trim_right
trim_right_idem [] = refl
trim_right_idem (c ∷ s) = ground (arith, trim_right_idem s)

to_lower-trim_space-IsTrimmed : (s : Bytes) → IsTrimmed (to_lower (trim_space s))
unfolding trim_space
to_lower-trim_space-IsTrimmed s = record {
  lower = to_lower_idem _;
  trimmed = trim_right-to_lower _ ∙ ap to_lower (trim_right_idem (trim_left s));
}

-- What a normalized level looks like: a "v", and a text in lower case with no space at its end.
record IsNormal (s : Bytes) : Type 0 where
  pub rest : Bytes
  pub starts : s ≡ b'v' ∷ rest
  pub is_trimmed : IsTrimmed s

v-IsTrimmed : (s : Bytes) → IsTrimmed s → IsTrimmed (b'v' ∷ s)
unfolding to_lower trim_right lower_byte
v-IsTrimmed s h = record {
  lower = ap (λ t. b'v' ∷ t) h.lower;
  trimmed = ap (λ t. b'v' ∷ t) h.trimmed;
}

with_v-IsNormal : (s : Bytes) → IsTrimmed s → IsNormal (with_v s)
unfolding with_v has_prefix to_lower trim_right lower_byte
with_v-IsNormal [] h = record {
  rest = codes "1";
  starts = refl;
  is_trimmed = record { lower = refl; trimmed = refl };
}
with_v-IsNormal (c ∷ s) h = elim (Bool-cases (c == b'v')) [
  | inl e ↦ rw e (record { rest = s; starts = ground arith; is_trimmed = h })
  | inr e ↦ rw e (record { rest = c ∷ s; starts = refl; is_trimmed = v-IsTrimmed (c ∷ s) h })
]

normalize-IsNormal : (s : Bytes) → IsNormal (normalize s)
unfolding normalize
normalize-IsNormal s =
    with_v-IsNormal _ (trim_prefixes-IsTrimmed _ level_prefixes (to_lower-trim_space-IsTrimmed s))

-- No prefix in the list begins with a "v", and no space stands in front.
normalize-v : (t : Bytes) → IsTrimmed (b'v' ∷ t) → normalize (b'v' ∷ t) ≡ b'v' ∷ t
unfolding normalize trim_space
normalize-v t h =
    rw (h.trimmed, h.lower) (unfold trim_prefixes trim_prefix has_prefix with_v in refl)

normalize-of_IsNormal : (s : Bytes) → IsNormal s → normalize s ≡ s
normalize-of_IsNormal s h =
    let t : IsTrimmed (b'v' ∷ h.rest) = rw h.starts at h.is_trimmed in
    rw h.starts (normalize-v h.rest t)

-- Normalizing a level a second time changes nothing.
pub normalize_idem : (s : Bytes) → normalize (normalize s) ≡ normalize s
normalize_idem s = normalize-of_IsNormal (normalize s) (normalize-IsNormal s)
