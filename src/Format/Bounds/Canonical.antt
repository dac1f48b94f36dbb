-- ===== src/Format/Bounds/Canonical.antt =====
-- The canonical form of an index is as safe as the index.
use microfat.Base.{
  ℕ, ◌+◌, ◌≡◌, ◌≢◌, ◌⊎◌, inl, inr, refl, ◌∙◌, List, [], ◌∷◌, arith, All, map, length,
}
use microfat.Text.{Bytes, to_lower}
use microfat.Microarch.Level.{normalize}
use microfat.Format.Types.{VariantEntry, Index}
use microfat.Format.Checksum.{length-to_lower, all_hex-to_lower}
use microfat.Format.Unmarshal.Fields.{canonical_variant}
use microfat.Format.Unmarshal.RoundTrip.{canonical}
use microfat.Format.Bounds.Safe.{IsDigest, VariantIsSafe, InOrder, Distinct, IsSafe}

IsDigest-to_lower : (s : Bytes) → IsDigest s → IsDigest (to_lower s)
IsDigest-to_lower s (n, h) = (length-to_lower s ∙ n, all_hex-to_lower s ∙ h)

module _ (arch : Bytes) (at : ℕ) where
  variant-IsSafe :
      (v : VariantEntry) → VariantIsSafe arch at v → VariantIsSafe arch at (canonical_variant v)
  unfolding canonical_variant
  variant-IsSafe v s = record {
    named = s.named;
    known = s.known;
    below_index = s.below_index;
    not_empty = s.not_empty;
    unpacks = s.unpacks;
    small = s.small;
    digest = IsDigest-to_lower v.sha256 s.digest;
  }

  variants-IsSafe :
      (vs : List VariantEntry)
      → All (VariantIsSafe arch at) vs
      → All (VariantIsSafe arch at) (map canonical_variant vs)
  variants-IsSafe [] h = tt
  variants-IsSafe (v ∷ vs) (s, ss) = (variant-IsSafe v s, variants-IsSafe vs ss)

InOrder-map :
    (from : ℕ) (vs : List VariantEntry) → InOrder from vs → InOrder from (map canonical_variant vs)
unfolding canonical_variant
InOrder-map from [] h = tt
InOrder-map from (v ∷ vs) (h, hs) = (h, InOrder-map (v.offset + v.compressed_size) vs hs)

apart-map :
    (s : Bytes) (vs : List VariantEntry)
    → All (λ w. s ≢ normalize w.level) vs
    → All (λ w. s ≢ normalize w.level) (map canonical_variant vs)
unfolding canonical_variant
apart-map s [] h = tt
apart-map s (v ∷ vs) (h, hs) = (h, apart-map s vs hs)

Distinct-map : (vs : List VariantEntry) → Distinct vs → Distinct (map canonical_variant vs)
unfolding canonical_variant
Distinct-map [] h = tt
Distinct-map (v ∷ vs) (h, hs) = (apart-map (normalize v.level) vs h, Distinct-map vs hs)

length-map : (vs : List VariantEntry) → length (map canonical_variant vs) ≡ length vs
length-map [] = refl
length-map (v ∷ vs) = omega (arith, length-map vs)

digest-to_lower : (n : ℕ) (s : Bytes) → (n ≡ 0) ⊎ IsDigest s → (n ≡ 0) ⊎ IsDigest (to_lower s)
digest-to_lower n s (inl e) = inl e
digest-to_lower n s (inr d) = inr (IsDigest-to_lower s d)

-- The canonical form of an index that is safe in front of an offset is safe there too.
pub canonical-IsSafe : (idx : Index) (at : ℕ) → IsSafe idx at → IsSafe (canonical idx) at
unfolding canonical
canonical-IsSafe idx at s = record {
  current = refl;
  at_nonneg = s.at_nonneg;
  some_variant = omega (arith, s.some_variant, length-map idx.variants);
  arch_known = s.arch_known;
  dictionary = record {
    small = s.dictionary.small;
    below_index = s.dictionary.below_index;
    digest = digest-to_lower idx.dictionary_size idx.dictionary_sha256 s.dictionary.digest;
  };
  variants = variants-IsSafe idx.target_arch at idx.variants s.variants;
  in_order = InOrder-map _ idx.variants s.in_order;
  distinct = Distinct-map idx.variants s.distinct;
}
