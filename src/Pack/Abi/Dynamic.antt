-- ===== src/Pack/Abi/Dynamic.antt =====
-- internal/pack/abi.go: the dynamic section: its entries, the string table they name, and the dependencies.
pub mod Safe
use microfat.Base.{
  ℕ, zero, suc, ◌+◌, ◌-◌, ◌*◌, Bool, true, false, not, ◌&&◌, ◌||◌, List, [], ◌∷◌, ◌++◌, ◌==◌, ltb,
  length, take, if◌then◌else◌,
}
use microfat.Text.{Bytes}
use microfat.Words.{mul64}
use microfat.Pack.Abi.{
  Act, metadata, resource_limit, lift, pure, fail, fail_if, ◌>>=◌, ◌>>◌, max_dynamic_entries,
  max_abi_string_bytes_per_input,
}
use microfat.Pack.Abi.Accounting.{charge_metadata}
use microfat.Pack.Abi.Reading.{ReaderAt, ByteOrder, uint_at, read_exact_at}
use microfat.Pack.Abi.Strings.{scan_bounded_c_string}
use microfat.Pack.Abi.Segments.{LoadSegment}
use microfat.Pack.Abi.Segments.Translate.{translate_vaddr}

pub record DynamicTags : Type 0 where
  pub needed_offsets : List ℕ
  pub strtab_vaddr : ℕ
  pub strtab_size : ℕ
  pub verneed_vaddr : ℕ
  pub verneed_num : ℕ
  pub has_strtab : Bool
  pub has_strsz : Bool
  pub has_verneed : Bool
  pub has_verneed_num : Bool

abbrev pub no_tags : DynamicTags
no_tags = record {
  needed_offsets = [];
  strtab_vaddr = 0;
  strtab_size = 0;
  verneed_vaddr = 0;
  verneed_num = 0;
  has_strtab = false;
  has_strsz = false;
  has_verneed = false;
  has_verneed_num = false;
}

-- A second entry with another value.
unfoldable pub conflicts : Bool → ℕ → ℕ → Bool
conflicts has old new = has && not (old == new)

-- `switch dTag`, behind the case of DT_NULL.
unfoldable pub apply_tag : ℕ → ℕ → DynamicTags → Act DynamicTags
apply_tag d_tag d_val tags =
    if d_tag == 1
    then pure (record tags { needed_offsets = tags.needed_offsets ++ (d_val ∷ []) })
    else if d_tag == 5
    then (fail_if (conflicts tags.has_strtab tags.strtab_vaddr d_val) metadata
        >> pure (record tags { strtab_vaddr = d_val; has_strtab = true }))
    else if d_tag == 10
    then (fail_if (conflicts tags.has_strsz tags.strtab_size d_val) metadata
        >> pure (record tags { strtab_size = d_val; has_strsz = true }))
    else if d_tag == 1879048190
    then (fail_if (conflicts tags.has_verneed tags.verneed_vaddr d_val) metadata
        >> pure (record tags { verneed_vaddr = d_val; has_verneed = true }))
    else if d_tag == 1879048191
    then (fail_if (conflicts tags.has_verneed_num tags.verneed_num d_val) metadata
        >> pure (record tags { verneed_num = d_val; has_verneed_num = true }))
    else pure tags

-- The loop over `left` entries from the one numbered `i` on; whether it met DT_NULL.
unfoldable pub scan_entries : Bytes → ByteOrder → ℕ → ℕ → DynamicTags → Act (DynamicTags × Bool)
scan_entries dyn_bytes order zero i tags = pure (tags, false)
scan_entries dyn_bytes order (suc left) i tags = do
  d_tag ← lift (uint_at order dyn_bytes (i * 16) (i * 16 + 8))
  d_val ← lift (uint_at order dyn_bytes (i * 16 + 8) (i * 16 + 16))
  if d_tag == 0
      then pure (tags, true)
      else (apply_tag d_tag d_val tags >>= λ t. scan_entries dyn_bytes order left (suc i) t)

unfoldable pub scan_dynamic_entries_buf : Bytes → ℕ → ByteOrder → Act DynamicTags
scan_dynamic_entries_buf dyn_bytes num_dyn order = do
  (tags, has_null_terminator) ← scan_entries dyn_bytes order num_dyn 0 no_tags
  fail_if (ltb 0 num_dyn && not has_null_terminator) metadata
  pure tags

unfoldable pub needed_from : Bytes → List ℕ → List Bytes → Act (List Bytes)
needed_from strtab [] deps = pure deps
needed_from strtab (off ∷ offs) deps = do
  dep_name ← scan_bounded_c_string strtab off true
  needed_from strtab offs (deps ++ (dep_name ∷ []))

-- `strtab[:strtabSize]`, where it is longer.
unfoldable pub clip : Bytes → ℕ → Bytes
clip strtab size = if ltb size (length strtab) then take size strtab else strtab

unfoldable pub parse_needed_dependencies : Bytes → ℕ → List ℕ → Act (List Bytes)
parse_needed_dependencies strtab strtab_size needed_offsets = do
  fail_if (ltb max_dynamic_entries (length needed_offsets)) resource_limit
  needed_from (clip strtab strtab_size) needed_offsets []

unfoldable pub validate_version_tag_pairing : DynamicTags → Act Unit
validate_version_tag_pairing tags =
    if not tags.has_verneed && not tags.has_verneed_num
    then pure tt
    else if tags.has_verneed && not tags.has_verneed_num
    then fail metadata
    else if not tags.has_verneed && tags.has_verneed_num
    then fail metadata
    else pure tt

unfoldable pub read_strtab : ReaderAt → List LoadSegment → ℕ → DynamicTags → Act Bytes
read_strtab r loads file_size tags = do
  fail_if (not tags.has_strtab || not tags.has_strsz) metadata
  fail_if (ltb max_abi_string_bytes_per_input tags.strtab_size) resource_limit
  charge_metadata tags.strtab_size
  strtab_off ← lift (translate_vaddr loads file_size tags.strtab_vaddr tags.strtab_size)
  lift (read_exact_at r strtab_off tags.strtab_size)

unfoldable pub resolve_dynamic_strtab : ReaderAt → List LoadSegment → ℕ → DynamicTags → Act Bytes
resolve_dynamic_strtab r loads file_size tags =
    if ltb 0 (length tags.needed_offsets) || (tags.has_verneed && ltb 0 tags.verneed_num)
    then read_strtab r loads file_size tags
    else pure []
