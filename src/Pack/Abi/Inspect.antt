-- ===== src/Pack/Abi/Inspect.antt =====
-- internal/pack/abi.go: `InspectELFABIReaderAtWithAccounting`, the inspection of one executable.
pub mod Safe
pub mod Increasing
pub mod Order
pub mod Sorting
pub mod Linkage
pub mod Total
pub mod FromBytes
use microfat.Base.{
  ℕ, zero, suc, ◌*◌, ◌/◌, ◌%◌, Bool, true, false, not, ◌&&◌, ◌||◌, Option, none, some, List, [],
  ◌∷◌, ◌==◌, ltb, length, take, if◌then◌else◌,
}
use microfat.Text.{Bytes, codes, index_byte, bytes_eq}
use microfat.Words.{mul64}
use microfat.Format.Buffer.{index}
use microfat.Pack.Abi.{
  ArtifactAccounting, InputAccounting, Act, AbiError, metadata, resource_limit, lift, pure, fail,
  fail_if, ◌>>=◌, ◌>>◌, max_dynamic_entries,
}
use microfat.Result.{Result}
use microfat.Pack.Abi.Accounting.{charge_metadata, charge_string}
use microfat.Pack.Abi.Reading.{
  ReaderAt, ByteOrder, little_endian, big_endian, uint_at, read_exact_at,
}
use microfat.Pack.Abi.Headers.{preflight_elf_headers}
use microfat.Pack.Abi.Segments.{LoadSegment, ProgramTables, parse_abi_program_headers}
use microfat.Pack.Abi.Dynamic.{
  DynamicTags, scan_dynamic_entries_buf, validate_version_tag_pairing, resolve_dynamic_strtab,
  parse_needed_dependencies,
}
use microfat.Pack.Abi.Versions.{parse_verneed}
use microfat.Pack.Abi.Report.{VersionRequirement, VariantAbiReport, unset, absent, classify_linkage}

-- What stands behind the dependencies in `parseDynamicMetadataReaderAt`.
unfoldable pub parse_versions :
    ReaderAt
    → List LoadSegment
    → ℕ
    → ByteOrder
    → DynamicTags
    → Bytes
    → VariantAbiReport
    → Act VariantAbiReport
parse_versions r loads file_size order tags strtab report =
    if tags.has_verneed && tags.has_verneed_num
    then (if tags.verneed_num == 0
        then pure (record report { version_requirements = [] })
        else (fail_if (not tags.has_strtab || not tags.has_strsz) metadata
            >> parse_verneed r loads file_size order tags.verneed_vaddr tags.verneed_num strtab
                report))
    else pure report

unfoldable pub parse_dynamic_metadata :
    ReaderAt
    → LoadSegment
    → List LoadSegment
    → ℕ
    → ByteOrder
    → VariantAbiReport
    → Act VariantAbiReport
parse_dynamic_metadata r dynamic_prog loads file_size order report = do
  fail_if (not (dynamic_prog.filesz % 16 == 0)) metadata
  fail_if (ltb max_dynamic_entries (dynamic_prog.filesz / 16)) resource_limit
  charge_metadata dynamic_prog.filesz
  dyn_bytes ← lift (read_exact_at r dynamic_prog.off dynamic_prog.filesz)
  tags ← scan_dynamic_entries_buf dyn_bytes (dynamic_prog.filesz / 16) order
  validate_version_tag_pairing tags
  strtab ← resolve_dynamic_strtab r loads file_size tags
  deps ← parse_needed_dependencies strtab tags.strtab_size tags.needed_offsets
  parse_versions r loads file_size order tags strtab (record report { dependencies = deps })

unfoldable pub interpreter_text : Bytes → Option ℕ → Act Bytes
interpreter_text raw none = fail metadata
interpreter_text raw (some n) = do fail_if (n == 0) metadata; charge_string n; pure (take n raw)

unfoldable pub read_interpreter :
    ReaderAt → Option LoadSegment → VariantAbiReport → Act VariantAbiReport
read_interpreter r none report = pure report
read_interpreter r (some p) report = do
  charge_metadata p.filesz
  raw_interp ← lift (read_exact_at r p.off p.filesz)
  text ← interpreter_text raw_interp (index_byte raw_interp 0)
  pure (record report { has_interpreter = true; interpreter = text })

unfoldable pub read_dynamic :
    ReaderAt
    → Option LoadSegment
    → List LoadSegment
    → ℕ
    → ByteOrder
    → VariantAbiReport
    → Act VariantAbiReport
read_dynamic r none loads file_size order report = pure report
read_dynamic r (some p) loads file_size order report =
    parse_dynamic_metadata r p loads file_size order
      (record report { inspection_source = codes "program_headers/dynamic_metadata" })

-- `normalizeVersionRequirements`: the first of equal requirements stays, and what stays is sorted.
unfoldable pub same_requirement : VersionRequirement → VersionRequirement → Bool
same_requirement a b =
    bytes_eq a.library b.library && bytes_eq a.version b.version && a.flags == b.flags

unfoldable pub is_seen : VersionRequirement → List VersionRequirement → Bool
is_seen r [] = false
is_seen r (s ∷ seen) = same_requirement r s || is_seen r seen

unfoldable pub distinct_from :
    List VersionRequirement → List VersionRequirement → List VersionRequirement
distinct_from seen [] = []
distinct_from seen (r ∷ reqs) =
    let skip = distinct_from seen reqs in
    let keep = distinct_from (r ∷ seen) reqs in if is_seen r seen then skip else r ∷ keep

-- `<` on strings, and the order of the requirements.
unfoldable pub bytes_less : Bytes → Bytes → Bool
bytes_less s [] = false
bytes_less [] (b ∷ t) = true
bytes_less (a ∷ s) (b ∷ t) = let rest = bytes_less s t in if a == b then rest else ltb a b

unfoldable pub requirement_less : VersionRequirement → VersionRequirement → Bool
requirement_less a b =
    if not (bytes_eq a.library b.library)
    then bytes_less a.library b.library
    else if not (bytes_eq a.version b.version)
    then bytes_less a.version b.version
    else ltb a.flags b.flags

-- `sort.Slice` by insertion: its result is fixed, since no two of the requirements are equal.
unfoldable pub insert_requirement :
    VersionRequirement → List VersionRequirement → List VersionRequirement
insert_requirement r [] = r ∷ []
insert_requirement r (s ∷ sorted) =
    let rest = insert_requirement r sorted in
    if requirement_less r s then r ∷ s ∷ sorted else s ∷ rest

unfoldable pub sort_requirements : List VersionRequirement → List VersionRequirement
sort_requirements [] = []
sort_requirements (r ∷ reqs) = insert_requirement r (sort_requirements reqs)

unfoldable pub normalize_version_requirements : List VersionRequirement → List VersionRequirement
normalize_version_requirements reqs =
    if ltb 1 (length reqs) then sort_requirements (distinct_from [] reqs) else reqs

-- What follows the checks on the headers; `header` is what they read.
unfoldable pub inspect_in_order : ReaderAt → ℕ → Bytes → ByteOrder → Act VariantAbiReport
inspect_in_order r file_size header order = do
  e_type ← lift (uint_at order header 16 18)
  e_machine ← lift (uint_at order header 18 20)
  e_phoff ← lift (uint_at order header 32 40)
  e_phentsize ← lift (uint_at order header 54 56)
  e_phnum ← lift (uint_at order header 56 58)
  ph_table ←
      (if e_phnum == 0 then pure [] else lift (read_exact_at r e_phoff (mul64 e_phnum e_phentsize)))
  tables ← parse_abi_program_headers ph_table e_phnum e_phentsize file_size order
  with_interp ← read_interpreter r tables.interp_prog (record {
    elf_type = e_type;
    machine = e_machine;
    linkage = unset;
    has_interpreter = false;
    interpreter = [];
    dependencies = [];
    version_requirements = [];
    completeness = absent;
    inspection_source = codes "program_headers";
    warnings = [];
  })
  with_dynamic ← read_dynamic r tables.dynamic_prog tables.loads file_size order with_interp
  let classified = classify_linkage with_dynamic e_type
  pure (record classified {
    version_requirements = normalize_version_requirements classified.version_requirements;
  })

unfoldable pub inspect_with_header : ReaderAt → ℕ → Bytes → Act VariantAbiReport
inspect_with_header r file_size header = do
  encoding ← lift (index header 5)
  inspect_in_order r file_size header (if encoding == 1 then little_endian else big_endian)

unfoldable pub inspect_elf_abi : ReaderAt → ℕ → Act VariantAbiReport
inspect_elf_abi r file_size = do
  header ← preflight_elf_headers r file_size
  inspect_with_header r file_size header

-- The whole call, on a fresh accounting for the input.
unfoldable pub inspect_elf_abi_with_accounting :
    ReaderAt → ℕ → Option ArtifactAccounting → Result AbiError VariantAbiReport × InputAccounting
inspect_elf_abi_with_accounting r file_size shared = inspect_elf_abi r file_size (record {
  shared = shared;
  max_metadata_bytes = 0;
  max_string_bytes = 0;
  max_string_scan_bytes = 0;
  max_version_records = 0;
  metadata_bytes_read = 0;
  string_scan_bytes_read = 0;
  retained_string_bytes = 0;
  version_records = 0;
})
