-- ===== src/Format/Bounds/Complete.antt =====
-- A safe index passes the validation, so that nothing safe is refused.
use microfat.Base.{
  ℕ, suc, ◌+◌, ◌≤◌, ◌<◌, ◌≡◌, ◌≢◌, ◌↔◌, refl, Bool, false, ◌||◌, List, [], ◌∷◌, arith, All, All-map,
  length, ltb, inl, inr,
}
use microfat.Text.{Bytes}
use microfat.Text.Laws.{bytes_eq-cases}
use microfat.Result.{ok}
use microfat.Words.{IsNonneg, lt64}
use microfat.Microarch.Level.{normalize}
use microfat.Format.Types.{VariantEntry, Index, IsTyped}
use microfat.Format.Checksum.{validate_checksum}
use microfat.Format.Marshal.{lacks_checksum}
use microfat.Format.Bounds.{
  contains, validate_dictionary_bounds, validate_variant, validate_variants, no_variants,
  validate_bounds,
}
use microfat.Format.Bounds.Safe.{
  IsDigest, VariantIsSafe, InOrder, Distinct, dictionary_end, DictionaryIsSafe, IsSafe,
}
use microfat.Format.Bounds.Sound.{Fresh, validate_bounds-IsSafe}

checked-IsDigest : (s : Bytes) → IsDigest s → lacks_checksum s ≡ false
unfolding validate_checksum
checked-IsDigest [] h = absurd (omega arith)
checked-IsDigest (c ∷ s) h = ground arith

validate_variant-passes :
    (arch : Bytes) (index_offset : ℕ) (seen : List Bytes) (bounded : Bool) (last_end : ℕ)
    (v : VariantEntry)
    → IsNonneg index_offset
    → VariantIsSafe arch index_offset v
    → contains seen (normalize v.level) ≡ false
    → last_end ≤ v.offset
    → validate_variant arch index_offset seen bounded last_end v ≡ ok (v.offset + v.compressed_size)
unfolding validate_variant
validate_variant-passes arch index_offset seen bounded last_end v low s f at =
    ground (arith, s.named, s.known, checked-IsDigest v.sha256 s.digest)

-- A level that differs from the new one is as fresh as before.
still-Fresh :
    (t : Bytes) (seen : List Bytes) (s : Bytes)
    → t ≢ s
    → contains seen s ≡ false
    → contains (t ∷ seen) s ≡ false
unfolding contains
still-Fresh t seen s d h = elim (bytes_eq-cases t s) [ inl e ↦ absurd (d e) | inr e ↦ rw e h ]

All-both :
    {A : Type 0} (P Q : A → Type 0) (xs : List A) → All P xs → All Q xs → All (λ x. P x × Q x) xs
All-both P Q [] h k = tt
All-both P Q (x ∷ xs) (p, ps) (q, qs) = ((p, q), All-both P Q xs ps qs)

module _ (idx : Index) (index_offset : ℕ) (low : IsNonneg index_offset) where
  validate_variants-passes :
      (vs : List VariantEntry) (i : ℕ) (seen : List Bytes) (last_end : ℕ)
      → All (VariantIsSafe idx.target_arch index_offset) vs
      → InOrder last_end vs
      → Distinct vs
      → All (Fresh seen) vs
      → validate_variants idx index_offset i seen last_end vs ≡ ok tt
  unfolding validate_variants
  validate_variants-passes [] i seen last_end s o d f = refl
  validate_variants-passes (v ∷ vs) i seen last_end (s, ss) (o, os) (d, ds) (f, fs) =
      let bounded = ltb 0 i || lt64 0 idx.dictionary_size in
      let news : All (Fresh (normalize v.level ∷ seen)) vs =
        All-map _ _ (λ w p. still-Fresh (normalize v.level) seen (normalize w.level) p.0 p.1) vs
          (All-both _ _ vs d fs) in
      rw (validate_variant-passes idx.target_arch index_offset seen bounded last_end v low s f o)
        (validate_variants-passes vs (suc i) (normalize v.level ∷ seen) _ ss os ds news)

dictionary-passes :
    (idx : Index) (index_offset : ℕ)
    → IsNonneg index_offset
    → DictionaryIsSafe idx index_offset
    → validate_dictionary_bounds idx index_offset ≡ ok (dictionary_end idx)
unfolding validate_dictionary_bounds
dictionary-passes idx index_offset low d = elim d.digest [
  | inl zero_size ↦ ground arith
  | inr g ↦ ground (arith, checked-IsDigest idx.dictionary_sha256 g)
]

All-Fresh : (vs : List VariantEntry) → All (Fresh []) vs
unfolding contains
All-Fresh [] = tt
All-Fresh (v ∷ vs) = (refl, All-Fresh vs)

no_variants-false : (vs : List VariantEntry) → 0 < length vs → no_variants vs ≡ false
unfolding no_variants
no_variants-false [] h = absurd (omega arith)
no_variants-false (v ∷ vs) h = refl

pub validate_bounds-passes :
    (idx : Index) (index_offset : ℕ)
    → IsSafe idx index_offset
    → validate_bounds idx index_offset ≡ ok tt
unfolding validate_bounds
validate_bounds-passes idx index_offset s = ground (
  arith,
  no_variants-false idx.variants s.some_variant,
  s.arch_known,
  dictionary-passes idx index_offset s.at_nonneg s.dictionary,
  validate_variants-passes idx index_offset s.at_nonneg idx.variants 0 [] (dictionary_end idx)
      s.variants s.in_order s.distinct (All-Fresh idx.variants),
)

-- The validation accepts exactly the safe indices.
pub validate_bounds_iff :
    (idx : Index) (index_offset : ℕ)
    → IsTyped idx
    → (validate_bounds idx index_offset ≡ ok tt) ↔ IsSafe idx index_offset
validate_bounds_iff idx index_offset t =
    (validate_bounds-IsSafe idx index_offset t, validate_bounds-passes idx index_offset)
