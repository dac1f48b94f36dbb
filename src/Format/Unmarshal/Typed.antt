-- ===== src/Format/Unmarshal/Typed.antt =====
-- The numbers that the decoder reads from bytes lie in the range of their Go types.
use microfat.Base.{
  ℕ, zero, suc, ◌+◌, ◌-◌, ◌<◌, ◌^◌, ◌≡◌, true, List, [], ◌∷◌, ◌++◌, arith, All, length, take, drop,
  length-take, length-drop, leb, Bool-cases, inl, inr,
}
use microfat.Text.{Bytes}
use microfat.Result.{Result, ok, ◌>>=◌}
use microfat.Result.Yields.{Yields, Yields-bind, Yields-after, Yields-ok}
use microfat.Words.{IsByte, IsInt64, get_uint, get_uint-bound}
use microfat.Format.Types.{FormatError, VariantEntry, Index, VariantIsTyped, IsTyped}
use microfat.Format.Buffer.{slice}
use microfat.Format.Unmarshal.{
  uint_at, decode_binary_variant, decode_variants, Header, read_header, unmarshal_binary_index,
}

pub All-take : (n : ℕ) (s : Bytes) → All IsByte s → All IsByte (take n s)
All-take zero s h = tt
All-take (suc n) [] h = tt
All-take (suc n) (b ∷ s) h = (h.0, All-take n s h.1)

pub All-drop : (n : ℕ) (s : Bytes) → All IsByte s → All IsByte (drop n s)
All-drop zero s h = h
All-drop (suc n) [] h = tt
All-drop (suc n) (b ∷ s) h = All-drop n s h.1

All-append :
    (vs ws : List VariantEntry)
    → All VariantIsTyped vs
    → All VariantIsTyped ws
    → All VariantIsTyped (vs ++ ws)
All-append [] ws h k = k
All-append (v ∷ vs) ws h k = (h.0, All-append vs ws h.1 k)

abbrev ReadIsTyped : VariantEntry × ℕ → Type 0
ReadIsTyped r = VariantIsTyped r.0

slice-length :
    (buf : Bytes) (at n : ℕ)
    → leb (at + n) (length buf) ≡ true
    → length (take (at + n - at) (drop at buf)) ≡ n
slice-length buf at n k =
    let a = length-take (at + n - at) (drop at buf) in
    let b = length-drop at buf in ground (arith, a, b)

module _ (buf : Bytes) (bytes : All IsByte buf) where
  slice-Yields :
      (at n : ℕ)
      → Yields {E = FormatError} (λ s. (length s ≡ n) × All IsByte s) (slice buf at (at + n))
  unfolding slice
  slice-Yields at n = record {
    of = λ s h. elim (Bool-cases (leb (at + n) (length buf))) [
      | inl k ↦
          let same : take (at + n - at) (drop at buf) ≡ s = ground arith in
          rw (← same) (slice-length buf at n k, All-take _ _ (All-drop at buf bytes))
      | inr k ↦ ground arith
    ];
  }

  uint_at-Yields : (at n : ℕ) → Yields (λ v. v < 256 ^ n) (uint_at buf at n)
  unfolding uint_at
  uint_at-Yields at n =
      Yields-bind (slice buf at (at + n)) _ (slice-Yields at n)
        (λ s p. Yields-ok (get_uint s) (let b = get_uint-bound s p.1 in rw p.0 at b))

  IsInt64-Yields : (at : ℕ) → Yields IsInt64 (uint_at buf at 8)
  IsInt64-Yields at = record {
    of = λ v h. let b = (uint_at-Yields at 8).of v h in omega (arith, b);
  }

  Yields-int64 :
      {B : Type 0} {Q : B → Type 0} (at : ℕ) (f : ℕ → Result FormatError B)
      → ((v : ℕ) → IsInt64 v → Yields Q (f v))
      → Yields Q (uint_at buf at 8 >>= f)
  Yields-int64 at f k = Yields-bind (uint_at buf at 8) f (IsInt64-Yields at) k

  Yields-variant :
      (v : VariantEntry) (at : ℕ)
      → IsInt64 v.offset
      → IsInt64 v.compressed_size
      → IsInt64 v.uncompressed_size
      → Yields {E = FormatError} ReadIsTyped (ok (v, at))
  Yields-variant v at o c u = Yields-ok (v, at) (o, c, u)

  decode_binary_variant-Yields : (at : ℕ) → Yields ReadIsTyped (decode_binary_variant buf at)
  unfolding decode_binary_variant
  decode_binary_variant-Yields at = search (Yields-int64, Yields-after, Yields-variant) depth 12

  decode_variants-Yields :
      (n at : ℕ) (out : List VariantEntry)
      → All VariantIsTyped out
      → Yields (All VariantIsTyped) (decode_variants n buf at out)
  unfolding decode_variants
  decode_variants-Yields zero at out h = Yields-ok out h
  decode_variants-Yields (suc n) at out h =
      Yields-bind _ _ (decode_binary_variant-Yields at) (λ (r : VariantEntry × ℕ) t.
        decode_variants-Yields n r.1 (out ++ (r.0 ∷ [])) (All-append out (r.0 ∷ []) h (t, tt)))

  -- The ranges of the fixed fields.
  abbrev HeaderIsTyped : Header → Type 0
  HeaderIsTyped h =
      IsInt64 h.created_unix × IsInt64 h.dict_offset × IsInt64 h.dict_size × (h.dict_id < 2 ^ 32)

  Yields-int32 :
      {B : Type 0} {Q : B → Type 0} (at : ℕ) (f : ℕ → Result FormatError B)
      → ((v : ℕ) → v < 2 ^ 32 → Yields Q (f v))
      → Yields Q (uint_at buf at 4 >>= f)
  Yields-int32 at f k =
      Yields-bind (uint_at buf at 4) f (uint_at-Yields at 4) (λ v b. k v (omega (arith, b)))

  Yields-header :
      (h : Header)
      → IsInt64 h.created_unix
      → IsInt64 h.dict_offset
      → IsInt64 h.dict_size
      → h.dict_id < 2 ^ 32
      → Yields {E = FormatError} HeaderIsTyped (ok h)
  Yields-header h c o s d = Yields-ok h (c, o, s, d)

  read_header-Yields : Yields HeaderIsTyped (read_header buf)
  unfolding read_header
  read_header-Yields = search (Yields-int64, Yields-int32, Yields-header, Yields-after) depth 14

  Yields-read_header :
      {B : Type 0} {Q : B → Type 0} (f : Header → Result FormatError B)
      → ((h : Header) → HeaderIsTyped h → Yields Q (f h))
      → Yields Q (read_header buf >>= f)
  Yields-read_header f k = Yields-bind (read_header buf) f read_header-Yields k

  Yields-variants :
      {B : Type 0} {Q : B → Type 0} (n at : ℕ) (f : List VariantEntry → Result FormatError B)
      → ((vs : List VariantEntry) → All VariantIsTyped vs → Yields Q (f vs))
      → Yields Q (decode_variants n buf at [] >>= f)
  Yields-variants n at f k =
      Yields-bind (decode_variants n buf at []) f (decode_variants-Yields n at [] tt) k

  Yields-index :
      (h : Header) (idx : Index)
      → HeaderIsTyped h
      → All VariantIsTyped idx.variants
      → idx.created_unix ≡ h.created_unix
      → idx.dictionary_offset ≡ h.dict_offset
      → idx.dictionary_size ≡ h.dict_size
      → idx.dictionary_id ≡ h.dict_id
      → Yields {E = FormatError} IsTyped (ok idx)
  Yields-index h idx t vs c o s d = Yields-ok idx (record {
    created_fits = rw c t.0;
    dict_offset_fits = rw o t.1;
    dict_size_fits = rw s t.2;
    dict_id_fits = rw d t.3;
    variants_fit = vs;
  })

  -- An index that is decoded from bytes has numbers in the range of their Go types.
  pub unmarshal-Yields : Yields IsTyped (unmarshal_binary_index buf)
  unfolding unmarshal_binary_index
  unmarshal-Yields =
      search (Yields-read_header, Yields-variants, Yields-index, Yields-after) depth 14
