-- ===== src/Pack/Abi/Inspect/Safe.antt =====
-- Lemmas on the parts of `inspectELFABIReaderAtWithAccounting`.
use microfat.Base.{
  ℕ, ◌*◌, ◌/◌, ◌≤◌, ◌<◌, ◌≡◌, ◌∙◌, inl, inr, true, ◌&&◌, Option-cases, Option, none, some, List,
  ◌==◌, length, length-take, All, arith,
}
use microfat.Text.{Bytes, index_byte}
use microfat.Pack.Abi.{metadata}
use microfat.Pack.Abi.Reading.{
  ReaderAt, ByteOrder, IsBuffer, FillsBuffer, read_exact_at-Returns, read_exact_at-IsBuffer,
}
use microfat.Pack.Abi.Safe.{Safe, Safe-bind, Safe-pure, Safe-if, Safe-fail, Safe-lift, Safe-weaken}
use microfat.Pack.Abi.Safe.Charges.{charge_metadata-Safe, charge_string-Safe}
use microfat.Pack.Abi.Headers.Safe.{Safe-guard, Safe-then}
use microfat.Pack.Abi.Strings.Found.{index_byte-split, index_byte-lt-length, take-ne_nil}
use microfat.Pack.Abi.Segments.{LoadSegment}
use microfat.Pack.Abi.Segments.Headers.{InFile, WhereSome}
use microfat.Pack.Abi.Dynamic.{DynamicTags}
use microfat.Pack.Abi.Dynamic.Safe.{
  IsName, scan_dynamic_entries_buf-Safe, validate_version_tag_pairing-Safe,
  resolve_dynamic_strtab-Safe, parse_needed_dependencies-IsName,
}
use microfat.Pack.Abi.Versions.Safe.{Requirements, parse_verneed-VersionsRead}
use microfat.Pack.Abi.Report.{VariantAbiReport}
use microfat.Pack.Abi.Inspect.{
  parse_versions, parse_dynamic_metadata, interpreter_text, read_interpreter, read_dynamic,
}

-- A path that fits the limit on interpreters.
abbrev pub IsInterpreter : Bytes → Type 0
IsInterpreter text = IsName text × (length text < 4096)

-- What the report says of the dynamic section so far.
pub record Sound (report : VariantAbiReport) : Type 0 where
  pub interpreter_ok : report.has_interpreter ≡ true → IsInterpreter report.interpreter
  pub dependencies_ok : All IsName report.dependencies
  pub requirements_ok : Requirements report.version_requirements

interpreter_text-IsInterpreter :
    (raw : Bytes) (size : ℕ)
    → IsBuffer size raw
    → size ≤ 4096
    → Safe IsInterpreter (interpreter_text raw (index_byte raw 0))
unfolding interpreter_text
interpreter_text-IsInterpreter raw size b small = elim (Option-cases (index_byte raw 0)) [
  | inl nowhere ↦ rw nowhere (Safe-fail metadata)
  | inr (n, here) ↦ rw here (
      Safe-guard _ _ _ λ some_byte. Safe-then _ _ (charge_string-Safe n) (
        let (after, split, no_nul) = index_byte-split raw n here in
        Safe-pure _ (
          (take-ne_nil n raw n here (ground arith), no_nul),
          omega (arith, length-take n raw, index_byte-lt-length raw n here, b.size_eq),
        )))
]

pub read_interpreter-Sound :
    (r : ReaderAt) (p : Option LoadSegment) (file_size : ℕ) (report : VariantAbiReport)
    → FillsBuffer r
    → WhereSome (λ q. InFile file_size q × (0 < q.filesz) × (q.filesz ≤ 4096)) p
    → Sound report
    → Safe Sound (read_interpreter r p report)
unfolding read_interpreter
read_interpreter-Sound r none file_size report fills h sound = Safe-pure report sound
read_interpreter-Sound r (some p) file_size report fills h sound =
    Safe-then _ _ (charge_metadata-Safe p.filesz) (
      Safe-bind {P = IsBuffer p.filesz} _ _
        (Safe-lift _ (read_exact_at-Returns r p.off p.filesz)
          (λ bs e. read_exact_at-IsBuffer r p.off p.filesz bs fills e))
        λ raw b. Safe-bind _ _ (interpreter_text-IsInterpreter raw p.filesz b h.2) λ text is_text.
          Safe-pure _ (record {
            interpreter_ok = λ has. is_text;
            dependencies_ok = sound.dependencies_ok;
            requirements_ok = sound.requirements_ok;
          }))

parse_versions-Sound :
    (r : ReaderAt) (loads : List LoadSegment) (file_size : ℕ) (order : ByteOrder)
    (tags : DynamicTags) (strtab : Bytes) (report : VariantAbiReport)
    → FillsBuffer r
    → Sound report
    → Safe Sound (parse_versions r loads file_size order tags strtab report)
unfolding parse_versions
parse_versions-Sound r loads file_size order tags strtab report fills sound =
    Safe-if (tags.has_verneed && tags.has_verneed_num) _ _
      (λ h.
        Safe-if (tags.verneed_num == 0) _ _
          (λ z. Safe-pure _ (record {
            interpreter_ok = sound.interpreter_ok;
            dependencies_ok = sound.dependencies_ok;
            requirements_ok = tt;
          }))
          (λ nz. Safe-guard _ _ _ λ a.
            Safe-weaken _
              (parse_verneed-VersionsRead r loads file_size order tags.verneed_vaddr
                tags.verneed_num strtab report fills sound.requirements_ok)
              λ after read. record {
                interpreter_ok = λ has.
                    rw (← read.0.same_interpreter)
                      (sound.interpreter_ok (read.0.same_has_interpreter ∙ has));
                dependencies_ok = rw (← read.0.same_dependencies) sound.dependencies_ok;
                requirements_ok = read.1;
              }))
      (λ h. Safe-pure report sound)

parse_dynamic_metadata-Sound :
    (r : ReaderAt) (p : LoadSegment) (loads : List LoadSegment) (file_size : ℕ) (order : ByteOrder)
    (report : VariantAbiReport)
    → FillsBuffer r
    → Sound report
    → Safe Sound (parse_dynamic_metadata r p loads file_size order report)
unfolding parse_dynamic_metadata
parse_dynamic_metadata-Sound r p loads file_size order report fills sound =
    Safe-guard _ _ _ λ whole. Safe-guard _ _ _ λ few.
      Safe-then _ _ (charge_metadata-Safe p.filesz) (
        Safe-bind {P = IsBuffer p.filesz} _ _
          (Safe-lift _ (read_exact_at-Returns r p.off p.filesz)
            (λ bs e. read_exact_at-IsBuffer r p.off p.filesz bs fills e))
          λ dyn_bytes b.
            let entries : p.filesz / 16 * 16 ≡ p.filesz = ground arith in
            Safe-bind _ _
              (scan_dynamic_entries_buf-Safe dyn_bytes (p.filesz / 16) order (rw entries b))
              λ tags t. Safe-then _ _ (validate_version_tag_pairing-Safe tags) (
                Safe-bind _ _ (resolve_dynamic_strtab-Safe r loads file_size tags) λ strtab u.
                  Safe-bind _ _
                    (parse_needed_dependencies-IsName strtab tags.strtab_size tags.needed_offsets)
                    λ deps names.
                      parse_versions-Sound r loads file_size order tags strtab _ fills (record {
                        interpreter_ok = sound.interpreter_ok;
                        dependencies_ok = names;
                        requirements_ok = sound.requirements_ok;
                      })))

pub read_dynamic-Sound :
    (r : ReaderAt) (p : Option LoadSegment) (loads : List LoadSegment) (file_size : ℕ)
    (order : ByteOrder) (report : VariantAbiReport)
    → FillsBuffer r
    → Sound report
    → Safe Sound (read_dynamic r p loads file_size order report)
unfolding read_dynamic
read_dynamic-Sound r none loads file_size order report fills sound = Safe-pure report sound
read_dynamic-Sound r (some p) loads file_size order report fills sound =
    parse_dynamic_metadata-Sound r p loads file_size order _ fills (record {
      interpreter_ok = sound.interpreter_ok;
      dependencies_ok = sound.dependencies_ok;
      requirements_ok = sound.requirements_ok;
    })
