-- ===== src/Format/Lookup.antt =====
-- The look-up of variants in an index: `NormalizeVariant`, `VariantLevels` and `FindVariant` of
-- internal/format/format.go.
use microfat.Base.{
  ℕ, zero, suc, ◌≡◌, ◌≢◌, ◌∙◌, true, Option, none, some, List, [], ◌∷◌, arith, All, inl, inr,
  get_elem?, if◌then◌else◌,
}
use microfat.Text.{Bytes, bytes_eq}
use microfat.Text.Laws.{bytes_eq_refl, bytes_eq-cases}
use microfat.Microarch.Level.{normalize}
use microfat.Format.Types.{VariantEntry, Index}
use microfat.Format.Bounds.Safe.{Distinct}

unfoldable pub normalize_variant : Bytes → Bytes
normalize_variant level = normalize level

unfoldable pub variant_levels : List VariantEntry → List Bytes
variant_levels [] = []
variant_levels (v ∷ vs) = v.level ∷ variant_levels vs

-- The loop of `FindVariant`.
unfoldable pub find_normalized : Bytes → List VariantEntry → Option VariantEntry
find_normalized norm [] = none
find_normalized norm (v ∷ vs) =
    if bytes_eq (normalize_variant v.level) norm then some v else find_normalized norm vs

unfoldable pub find_variant : Index → Bytes → Option VariantEntry
find_variant idx level = find_normalized (normalize_variant level) idx.variants

-- A level other than those in front is looked for behind them.
apart-at :
    (norm : Bytes) (vs : List VariantEntry) (i : ℕ) (v : VariantEntry)
    → All (λ w. norm ≢ normalize w.level) vs
    → get_elem? vs i ≡ some v
    → norm ≢ normalize v.level
apart-at norm [] i v h e = cc
apart-at norm (w ∷ vs) zero v h e = let same : w ≡ v = ground arith in rw (← same) h.0
apart-at norm (w ∷ vs) (suc i) v h e = apart-at norm vs i v h.1 e

find_normalized-at :
    (level : Bytes) (vs : List VariantEntry) (i : ℕ) (v : VariantEntry)
    → Distinct vs
    → get_elem? vs i ≡ some v
    → normalize level ≡ normalize v.level
    → find_normalized (normalize level) vs ≡ some v
unfolding find_normalized normalize_variant
find_normalized-at level [] i v d e same = cc
find_normalized-at level (w ∷ vs) zero v d e same =
    let at : w ≡ v = ground arith in
    let found : bytes_eq (normalize w.level) (normalize level) ≡ true =
      rw (at, same) (bytes_eq_refl (normalize v.level)) in
    rw found e
find_normalized-at level (w ∷ vs) (suc i) v d e same =
    let rest = find_normalized-at level vs i v d.1 e same in
    elim (bytes_eq-cases (normalize w.level) (normalize level)) [
      | inl k ↦ absurd (apart-at (normalize w.level) vs i v d.0 e (k ∙ same))
      | inr k ↦ rw k rest
    ]

-- Where no two variants have the same normalized level, any spelling of a variant's level finds just
-- that variant.
pub find_variant-at :
    (idx : Index) (i : ℕ) (v : VariantEntry) (level : Bytes)
    → Distinct idx.variants
    → get_elem? idx.variants i ≡ some v
    → normalize level ≡ normalize v.level
    → find_variant idx level ≡ some v
unfolding find_variant normalize_variant
find_variant-at idx i v level d e same = find_normalized-at level idx.variants i v d e same
