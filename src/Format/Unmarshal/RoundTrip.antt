-- ===== src/Format/Unmarshal/RoundTrip.antt =====
-- The decoder reads back the index that the encoder wrote.
use microfat.Base.{
  ℕ, ◌+◌, ◌<◌, ◌≡◌, sym, ap, ◌∙◌, false, ◌&&◌, List, [], ◌∷◌, ◌++◌, append_assoc, append-nil, arith,
  length, length-append, All, map,
}
use microfat.Text.{Bytes, to_lower}
use microfat.Text.Laws.{bytes_eq_refl}
use microfat.Result.{ok, >>=-eq-ok}
use microfat.Words.{lt64, put_uint}
use microfat.Format.Types.{
  FormatError, VariantEntry, Index, VariantIsTyped, IsTyped, index_magic_v2, format_version2,
}
use microfat.Format.Buffer.Reading.{At, At-start, At-step, length-At, slice-At}
use microfat.Format.Marshal.{
  lacks_checksum, variant_size, total_size, fixed_size, index_size, marshal_binary_index,
}
use microfat.Format.Marshal.Exact.{marshal-ok, length-header_layout}
use microfat.Format.Marshal.Layout.{
  string8, string16, variant_layout, variants_layout, header_layout, index_layout,
}
use microfat.Format.Unmarshal.{Header, decode_variants, read_header, unmarshal_binary_index}
use microfat.Format.Unmarshal.Fields.{
  At-to, At-uint, At-string8, At-string16, read_string8-At, uint_at-At, read_string16-At,
  read_count-At, VariantFits, canonical_variant, decode_variant-At,
}

decode_variants-At :
    {buf : Bytes} (vs : List VariantEntry) {at : ℕ} (out : List VariantEntry) (rest : Bytes)
    → All VariantFits vs
    → At buf at (variants_layout vs ++ rest)
    → decode_variants (length vs) buf at out ≡ ok (out ++ map canonical_variant vs)
unfolding decode_variants variants_layout
decode_variants-At [] out rest fits h = ap ok (sym (append-nil out))
decode_variants-At {buf} (v ∷ vs) {at} out rest (f, fs) h =
    let h₁ = rw append_assoc at h in
    rw (decode_variant-At v _ f h₁) (
      decode_variants-At vs (out ++ (canonical_variant v ∷ [])) rest fs
        (At-step (variant_layout v) _ h₁)
      ∙ ap ok (append_assoc out _ _))

header_of : Index → Header
header_of idx = record {
  version = format_version2;
  created_unix = idx.created_unix;
  dict_offset = idx.dictionary_offset;
  dict_size = idx.dictionary_size;
  dict_id = idx.dictionary_id;
}

split-header :
    (idx : Index) (rest : Bytes)
    → header_layout idx ++ rest
      ≡ index_magic_v2
        ++ (put_uint 2 format_version2
            ++ (put_uint 8 idx.created_unix
                ++ (put_uint 8 idx.dictionary_offset
                    ++ (put_uint 8 idx.dictionary_size ++ (put_uint 4 idx.dictionary_id ++ rest)))))
unfolding header_layout
split-header idx rest = simp append_assoc

read_header-At :
    {buf : Bytes} (idx : Index) (rest : Bytes)
    → IsTyped idx
    → At buf 0 (header_layout idx ++ rest)
    → read_header buf ≡ ok (header_of idx)
unfolding read_header header_of
read_header-At {buf} idx rest t h =
    let h₀ = rw split-header at h in
    let h₁ = At-step index_magic_v2 _ h₀ in
    let h₂ = At-uint 2 format_version2 _ h₁ in
    let h₃ = At-uint 8 idx.created_unix _ h₂ in
    let h₄ = At-uint 8 idx.dictionary_offset _ h₃ in
    let h₅ = At-uint 8 idx.dictionary_size _ h₄ in
    ground (
      arith,
      length-At _ h,
      length-append (header_layout idx) rest,
      length-header_layout idx,
      slice-At {E = FormatError} index_magic_v2 _ h₀,
      bytes_eq_refl index_magic_v2,
      uint_at-At _ 2 format_version2 (omega arith) h₁,
      uint_at-At _ 8 idx.created_unix t.created_fits h₂,
      uint_at-At _ 8 idx.dictionary_offset t.dict_offset_fits h₃,
      uint_at-At _ 8 idx.dictionary_size t.dict_size_fits h₄,
      uint_at-At _ 4 idx.dictionary_id t.dict_id_fits h₅,
    )

-- What the checks of the encoder leave of an index.
record IndexFits (idx : Index) : Type 0 where
  os_fits : length idx.target_os < 256
  arch_fits : length idx.target_arch < 256
  app_fits : length idx.app_name < 65536
  count_fits : length idx.variants < 65536
  dict_sha_fits : length idx.dictionary_sha256 < 256
  dict_checked : (lt64 0 idx.dictionary_size && lacks_checksum idx.dictionary_sha256) ≡ false

index_size-fits : (idx : Index) (t : ℕ) → index_size idx ≡ ok t → IndexFits idx
unfolding index_size
index_size-fits idx t h = ground arith

variant_size-fits :
    (v : VariantEntry) (n : ℕ) → variant_size v ≡ ok n → VariantIsTyped v → VariantFits v
unfolding variant_size
variant_size-fits v n h t = ground arith

total_size-fits :
    (acc t : ℕ) (vs : List VariantEntry)
    → total_size acc vs ≡ ok t
    → All VariantIsTyped vs
    → All VariantFits vs
unfolding total_size
total_size-fits acc t [] h ty = tt
total_size-fits acc t (v ∷ vs) h (tv, tvs) =
    let (n, e, r) = >>=-eq-ok (variant_size v) (λ n. total_size (acc + n) vs) h in
    (variant_size-fits v n e tv, total_size-fits (acc + n) t vs r tvs)

-- The index as the decoder returns it: version 2, digests in lower case, no empty codec name.
unfoldable pub canonical : Index → Index
canonical idx = record idx {
  version = format_version2;
  dictionary_sha256 = to_lower idx.dictionary_sha256;
  variants = map canonical_variant idx.variants;
}

index_layout-At :
    (idx : Index)
    → At (index_layout idx) 0 (
        header_layout idx
        ++ (string8 idx.dictionary_sha256
            ++ (string8 idx.target_os
                ++ (string8 idx.target_arch
                    ++ (string16 idx.app_name
                        ++ (put_uint 2 (length idx.variants)
                            ++ (variants_layout idx.variants ++ [])))))))
unfolding index_layout
index_layout-At idx = rw append-nil (At-start (index_layout idx))

unmarshal-layout :
    (idx : Index)
    → IsTyped idx
    → IndexFits idx
    → All VariantFits idx.variants
    → unmarshal_binary_index (index_layout idx) ≡ ok (canonical idx)
unfolding unmarshal_binary_index header_of canonical
unmarshal-layout idx t f fv =
    let h = index_layout-At idx in
    let h₀ =
      At-to {b = 34} (omega (arith, length-header_layout idx)) (At-step (header_layout idx) _ h) in
    let h₁ = At-string8 idx.dictionary_sha256 _ h₀ in
    let h₂ = At-string8 idx.target_os _ h₁ in
    let h₃ = At-string8 idx.target_arch _ h₂ in
    let h₄ = At-string16 idx.app_name _ h₃ in
    let h₅ = At-uint 2 (length idx.variants) _ h₄ in
    ground (
      arith,
      f.dict_checked,
      read_header-At idx _ t h,
      read_string8-At _ idx.dictionary_sha256 f.dict_sha_fits h₀,
      read_string8-At _ idx.target_os f.os_fits h₁,
      read_string8-At _ idx.target_arch f.arch_fits h₂,
      read_string16-At _ idx.app_name f.app_fits h₃,
      read_count-At _ (length idx.variants) f.count_fits h₄,
      decode_variants-At idx.variants [] [] fv h₅,
    )

-- What the encoder writes for an index whose numbers lie in the range of their Go types, the decoder
-- reads back as the canonical form of that index: every field is kept, but for the version, which
-- is 2, the digests, which are in lower case, and an empty codec name, which is "zstd".
pub unmarshal-marshal :
    (idx : Index) (bs : Bytes)
    → IsTyped idx
    → marshal_binary_index idx ≡ ok bs
    → unmarshal_binary_index bs ≡ ok (canonical idx)
unmarshal-marshal idx bs t h =
    let (same, e) = marshal-ok idx bs h in
    let fits : total_size (fixed_size idx) idx.variants ≡ ok (length bs) =
      unfold index_size in ground arith in
    rw same (
      unmarshal-layout idx t (index_size-fits idx (length bs) e)
        (total_size-fits (fixed_size idx) (length bs) idx.variants fits t.variants_fit))
