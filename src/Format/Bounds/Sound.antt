-- ===== src/Format/Bounds/Sound.antt =====
-- An index that passes the validation is safe.
use microfat.Base.{
  ℕ, suc, ◌+◌, ◌≤◌, ◌<◌, ◌≡◌, ◌≢◌, ◌∙◌, Bool, true, false, ◌||◌, List, [], ◌∷◌, arith, All, All-map,
  length, ltb,
}
use microfat.Text.{Bytes, bytes_eq}
use microfat.Text.Laws.{bytes_eq_iff}
use microfat.Result.{ok, ◌>>=◌, >>=-eq-ok}
use microfat.Words.{IsNonneg, lt64}
use microfat.Microarch.Level.{normalize}
use microfat.Format.Types.{VariantEntry, Index, VariantIsTyped, IsTyped}
use microfat.Format.Checksum.{validate_checksum}
use microfat.Format.Marshal.{lacks_checksum}
use microfat.Format.Bounds.{
  contains, validate_dictionary_bounds, validate_variant, validate_variants, is_unknown_arch,
  no_variants, validate_bounds,
}
use microfat.Format.Bounds.Safe.{
  IsDigest, VariantIsSafe, InOrder, Distinct, dictionary_end, DictionaryIsSafe, IsSafe,
}

IsDigest-checked : (s : Bytes) → lacks_checksum s ≡ false → IsDigest s
unfolding validate_checksum
IsDigest-checked [] h = cc
IsDigest-checked (c ∷ s) h = ground arith

module _ (arch : Bytes) (index_offset : ℕ) (seen : List Bytes) (bounded : Bool) (last_end : ℕ)
    (v : VariantEntry) (typed : VariantIsTyped v) (low : IsNonneg index_offset)
    (end_low : IsNonneg last_end) {end : ℕ}
    (h : validate_variant arch index_offset seen bounded last_end v ≡ ok end) where
  validate_variant-safe : VariantIsSafe arch index_offset v
  unfolding validate_variant
  validate_variant-safe = ground (arith, IsDigest-checked v.sha256)

  validate_variant-end :
      (end ≡ v.offset + v.compressed_size)
      × (end ≤ index_offset)
      × (contains seen (normalize v.level) ≡ false)
      × (bounded ≡ true → last_end ≤ v.offset)
  unfolding validate_variant
  validate_variant-end = ground arith

bytes_eq-eq : (t s : Bytes) → t ≡ s → bytes_eq t s ≡ true
bytes_eq-eq t s e = (bytes_eq_iff t s).1 e

-- A level that the extended set does not hold differs from the new one, and was not in the old set.
fresh :
    (t : Bytes) (seen : List Bytes) (s : Bytes)
    → contains (t ∷ seen) s ≡ false
    → (t ≢ s) × (contains seen s ≡ false)
unfolding contains
fresh t seen s h = (λ e. cc (bytes_eq-eq t s e, h), ground arith)

later : (i : ℕ) (b : Bool) → (ltb 0 (suc i) || b) ≡ false → ⊥
later i b h = ground arith

abbrev pub Fresh : List Bytes → VariantEntry → Type 0
Fresh seen w = contains seen (normalize w.level) ≡ false

module _ (idx : Index) (index_offset : ℕ) (low : IsNonneg index_offset) where
  validate_variants_sound :
      (vs : List VariantEntry) (i : ℕ) (seen : List Bytes) (last_end : ℕ)
      → All VariantIsTyped vs
      → last_end ≤ index_offset
      → ((ltb 0 i || lt64 0 idx.dictionary_size) ≡ false → last_end ≡ 0)
      → validate_variants idx index_offset i seen last_end vs ≡ ok tt
      → All (VariantIsSafe idx.target_arch index_offset) vs
        × InOrder last_end vs
        × Distinct vs
        × All (Fresh seen) vs
  unfolding validate_variants
  validate_variants_sound [] i seen last_end t e z h = (tt, tt, tt, tt)
  validate_variants_sound (v ∷ vs) i seen last_end (tv, tvs) e z h =
      let bounded = ltb 0 i || lt64 0 idx.dictionary_size in
      let (end, one, rest) =
        >>=-eq-ok (validate_variant idx.target_arch index_offset seen bounded last_end v)
          (λ n. validate_variants idx index_offset (suc i) (normalize v.level ∷ seen) n vs) h in
      let last_low : IsNonneg last_end = omega arith in
      let safe =
        validate_variant-safe idx.target_arch index_offset seen bounded last_end v tv low last_low
          one in
      let (at, below, new, behind) =
        validate_variant-end idx.target_arch index_offset seen bounded last_end v tv low last_low
          one in
      let (safes, order, apart, news) =
        validate_variants_sound vs (suc i) (normalize v.level ∷ seen) end tvs below
          (λ x. absurd (later i _ x)) rest in
      let split = λ (w : VariantEntry). fresh (normalize v.level) seen (normalize w.level) in
      (
        (safe, safes),
        (ground (arith, z), rw at at order),
        (All-map _ _ (λ w f. (split w f).0) vs news, apart),
        (new, All-map _ _ (λ w f. (split w f).1) vs news),
      )

dictionary_sound :
    (idx : Index) (index_offset : ℕ) {end : ℕ}
    → IsTyped idx
    → IsNonneg index_offset
    → validate_dictionary_bounds idx index_offset ≡ ok end
    → (end ≡ dictionary_end idx) × DictionaryIsSafe idx index_offset
unfolding validate_dictionary_bounds
dictionary_sound idx index_offset t low h = ground (arith, IsDigest-checked idx.dictionary_sha256)

dictionary_end-none :
    (idx : Index) (index_offset : ℕ)
    → DictionaryIsSafe idx index_offset
    → (ltb 0 0 || lt64 0 idx.dictionary_size) ≡ false
    → dictionary_end idx ≡ 0
dictionary_end-none idx index_offset d h = ground (arith, d.small)

some_variant : (vs : List VariantEntry) → no_variants vs ≡ false → 0 < length vs
unfolding no_variants
some_variant [] h = cc
some_variant (v ∷ vs) h = omega arith

-- The tests of `validate_bounds` itself, and what is left to run behind them.
record Guarded (idx : Index) (index_offset : ℕ) : Type 0 where
  pub current : idx.version ≡ 2
  pub at_nonneg : IsNonneg index_offset
  pub some_variant : no_variants idx.variants ≡ false
  pub arch_known : is_unknown_arch idx.target_arch ≡ false
  pub parts :
      (validate_dictionary_bounds idx index_offset >>= λ last_end.
      validate_variants idx index_offset 0 [] last_end idx.variants)
      ≡ ok tt

validate_bounds-Guarded :
    (idx : Index) (index_offset : ℕ)
    → validate_bounds idx index_offset ≡ ok tt
    → Guarded idx index_offset
unfolding validate_bounds
validate_bounds-Guarded idx index_offset h = ground arith

-- An index that passes the validation is safe: version 2, a known architecture, the dictionary and
-- then the payloads one behind the other below the index, no two of one level, each digest well formed.
pub validate_bounds-IsSafe :
    (idx : Index) (index_offset : ℕ)
    → IsTyped idx
    → validate_bounds idx index_offset ≡ ok tt
    → IsSafe idx index_offset
validate_bounds-IsSafe idx index_offset t h =
    let g = validate_bounds-Guarded idx index_offset h in
    let (end, one, rest) =
      >>=-eq-ok (validate_dictionary_bounds idx index_offset)
        (λ last_end. validate_variants idx index_offset 0 [] last_end idx.variants) g.parts in
    let (at, dict) = dictionary_sound idx index_offset t g.at_nonneg one in
    let below : end ≤ index_offset = omega (arith, dict.below_index, at) in
    let (safes, order, apart, news) =
      validate_variants_sound idx index_offset g.at_nonneg idx.variants 0 [] end t.variants_fit
        below (λ x. at ∙ dictionary_end-none idx index_offset dict x) rest in
    record {
      current = g.current;
      at_nonneg = g.at_nonneg;
      some_variant = some_variant idx.variants g.some_variant;
      arch_known = g.arch_known;
      dictionary = dict;
      variants = safes;
      in_order = rw at at order;
      distinct = apart;
    }
