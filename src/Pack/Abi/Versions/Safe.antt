-- ===== src/Pack/Abi/Versions/Safe.antt =====
-- Lemmas on the calls that read the version records.
use microfat.Base.{
  ℕ, zero, suc, ◌+◌, ◌^◌, ◌<◌, ◌≡◌, refl, true, not, List, [], ◌∷◌, ◌==◌, ltb, length,
  length-append, All, arith, All-append, if-cases,
}
use microfat.Text.{Bytes}
use microfat.Pack.Abi.Reading.{
  ReaderAt, ByteOrder, IsBuffer, FillsBuffer, read_into_at-Returns, read_into_at-IsBuffer,
}
use microfat.Pack.Abi.Safe.{
  Safe, Safe-bind, Safe-pure, Safe-if, Safe-fail_if, Safe-lift, Safe-weaken,
}
use microfat.Pack.Abi.Safe.Charges.{
  charge_metadata-Safe, check_metadata-Safe, charge_string-Safe, charge_version_record-Safe,
}
use microfat.Pack.Abi.Headers.Safe.{Safe-guard, Safe-then, Safe-uint_at, Safe-read_into_at}
use microfat.Pack.Abi.Strings.Found.{scan_bounded_c_string-Safe}
use microfat.Pack.Abi.Segments.{LoadSegment}
use microfat.Pack.Abi.Dynamic.{clip}
use microfat.Pack.Abi.Dynamic.Safe.{IsName, IsText-IsName, translate_vaddr-Returns}
use microfat.Pack.Abi.Report.{VersionRequirement, VariantAbiReport, warn, is_unsupported}
use microfat.Pack.Abi.Versions.{
  advance_elf_relative_offset, next_offset, read_vernaux, vernaux_from, parse_vernaux_chain,
  validate_verneed_aux_offset, library_versions, read_verneed, stop_unsupported, open_verneed,
  verneed_from, available_bytes, finish_versions, parse_verneed,
}

-- A requirement that names a library and a version, with flags of 16 bits.
abbrev pub IsRequirement : VersionRequirement → Type 0
IsRequirement v = IsName v.library × IsName v.version × (v.flags < 2 ^ 16)

advance_elf_relative_offset-Safe :
    (curr rel min_off max_off size : ℕ)
    → Safe (λ t. Unit) (advance_elf_relative_offset curr rel min_off max_off size)
unfolding advance_elf_relative_offset
advance_elf_relative_offset-Safe curr rel min_off max_off size =
    Safe-guard _ _ _ λ a. Safe-guard _ _ _ λ b. Safe-guard _ _ _ λ c. Safe-pure _ tt

next_offset-Safe :
    (left curr next off available : ℕ) → Safe (λ t. Unit) (next_offset left curr next off available)
unfolding next_offset
next_offset-Safe left curr next off available =
    Safe-if (ltb 0 left) _ _ (λ h. Safe-guard _ _ _ λ a. advance_elf_relative_offset-Safe _ _ _ _ _)
      λ h. Safe-guard _ _ _ λ a. Safe-pure _ tt

abbrev pub Requirements : List VersionRequirement → Type 0
Requirements = All IsRequirement

module _ (r : ReaderAt) (order : ByteOrder) (off available : ℕ) (fills : FillsBuffer r) where
  read_vernaux-IsRequirement :
      (parent curr : ℕ) (visited : List ℕ) (lib_name strtab : Bytes)
      → IsName lib_name
      → Safe
          (λ x. IsRequirement x.0)
          (read_vernaux r order off available parent curr visited lib_name strtab)
  unfolding read_vernaux
  read_vernaux-IsRequirement parent curr visited lib_name strtab named =
      Safe-then _ _ charge_version_record-Safe (
        Safe-then _ _ (charge_metadata-Safe 16) (
          Safe-guard _ _ _ λ a. Safe-guard _ _ _ λ b. Safe-guard _ _ _ λ c.
            Safe-read_into_at r 16 curr _ fills λ aux_buf buffer.
              Safe-uint_at order aux_buf 16 4 6 _ buffer (omega arith) (omega arith) λ flags e0 s0.
                Safe-uint_at order aux_buf 16 8 12 _ buffer (omega arith) (omega arith)
                  λ name e1 s1.
                    Safe-uint_at order aux_buf 16 12 16 _ buffer (omega arith) (omega arith)
                      λ next e2 s2.
                        Safe-bind _ _ (scan_bounded_c_string-Safe strtab name true) λ version text.
                          Safe-pure _ (named, IsText-IsName strtab name version text, omega arith)))

  -- The chain yields one requirement for each of its records.
  vernaux_from-IsRequirement :
      (left parent curr : ℕ) (visited : List ℕ) (lib_name strtab : Bytes)
      (reqs : List VersionRequirement)
      → IsName lib_name
      → Requirements reqs
      → Safe
          (λ out. Requirements out × (length out ≡ length reqs + left))
          (vernaux_from r order off available left parent curr visited lib_name strtab reqs)
  unfolding vernaux_from
  vernaux_from-IsRequirement zero parent curr visited lib_name strtab reqs named h =
      Safe-pure reqs (h, omega arith)
  vernaux_from-IsRequirement (suc left) parent curr visited lib_name strtab reqs named h =
      Safe-bind _ _ (read_vernaux-IsRequirement parent curr visited lib_name strtab named) λ x req.
        Safe-bind _ _ (next_offset-Safe left curr x.1 off available) λ next p.
          Safe-weaken _
            (vernaux_from-IsRequirement left parent next (curr ∷ visited) lib_name strtab _ named
              (All-append IsRequirement reqs (x.0 ∷ []) h (req, tt)))
            λ out done. (done.0, omega (arith, done.1, length-append reqs (x.0 ∷ [])))

  validate_verneed_aux_offset-Safe :
      (cnt aux curr : ℕ)
      → Safe (λ t. Unit) (validate_verneed_aux_offset r order off available cnt aux curr)
  unfolding validate_verneed_aux_offset
  validate_verneed_aux_offset-Safe cnt aux curr =
      Safe-if (cnt == 0) _ _ (λ h. Safe-pure _ tt)
        λ h. Safe-guard _ _ _ λ a. Safe-weaken _ (Safe-fail_if _ _) λ t p. tt

  library_versions-IsRequirement :
      (cnt aux curr : ℕ) (lib_name strtab : Bytes) (reqs : List VersionRequirement)
      → IsName lib_name
      → Requirements reqs
      → Safe Requirements (library_versions r order off available cnt aux curr lib_name strtab reqs)
  unfolding library_versions parse_vernaux_chain
  library_versions-IsRequirement cnt aux curr lib_name strtab reqs named h =
      Safe-if (cnt == 0) _ _ (λ z. Safe-pure reqs h)
        λ nz.
          Safe-weaken _
            (vernaux_from-IsRequirement cnt curr _ [] lib_name (clip strtab (length strtab)) reqs
              named h)
            λ out done. done.0

  read_verneed-IsRequirement :
      (left curr : ℕ) (vn_buf strtab : Bytes) (reqs : List VersionRequirement)
      → IsBuffer 16 vn_buf
      → Requirements reqs
      → Safe
          (λ x. Requirements x.0)
          (read_verneed r order off available left curr vn_buf strtab reqs)
  unfolding read_verneed
  read_verneed-IsRequirement left curr vn_buf strtab reqs buffer h =
      Safe-uint_at order vn_buf 16 2 4 _ buffer (omega arith) (omega arith) λ cnt e0 s0.
        Safe-uint_at order vn_buf 16 4 8 _ buffer (omega arith) (omega arith) λ file e1 s1.
          Safe-uint_at order vn_buf 16 8 12 _ buffer (omega arith) (omega arith) λ aux e2 s2.
            Safe-uint_at order vn_buf 16 12 16 _ buffer (omega arith) (omega arith) λ next e3 s3.
              Safe-then _ _ (validate_verneed_aux_offset-Safe cnt aux curr) (
                Safe-bind _ _ (scan_bounded_c_string-Safe strtab file true) λ lib_name text.
                  Safe-bind _ _
                    (library_versions-IsRequirement cnt aux curr lib_name strtab reqs
                      (IsText-IsName strtab file lib_name text) h)
                    λ out done.
                      Safe-bind _ _ (next_offset-Safe left curr next off available)
                        λ o p. Safe-pure _ done)

  open_verneed-IsBuffer :
      (curr : ℕ) (visited : List ℕ)
      → Safe (IsBuffer 16) (open_verneed r order off available curr visited)
  unfolding open_verneed
  open_verneed-IsBuffer curr visited = Safe-then _ _ charge_version_record-Safe (
      Safe-then _ _ (charge_metadata-Safe 16) (
        Safe-guard _ _ _ λ a. Safe-guard _ _ _ λ b.
          Safe-lift _ (read_into_at-Returns r 16 curr)
            (λ bs e. read_into_at-IsBuffer r 16 curr bs fills e)))

-- What a report has kept while its versions are read: all but these, the completeness and the warnings.
pub record Kept (before after : VariantAbiReport) : Type 0 where
  pub same_dependencies : before.dependencies ≡ after.dependencies
  pub same_interpreter : before.interpreter ≡ after.interpreter
  pub same_has_interpreter : before.has_interpreter ≡ after.has_interpreter

abbrev pub VersionsRead : VariantAbiReport → VariantAbiReport → Type 0
VersionsRead before after = Kept before after × Requirements after.version_requirements

module _ (r : ReaderAt) (order : ByteOrder) (off available : ℕ) (fills : FillsBuffer r) where
  stop_unsupported-VersionsRead :
      (version : ℕ) (report : VariantAbiReport)
      → Requirements report.version_requirements
      → Safe (VersionsRead report) (stop_unsupported r order off available version report)
  unfolding stop_unsupported warn
  stop_unsupported-VersionsRead version report h = Safe-then _ _ (charge_string-Safe _) (
      Safe-pure _ (
        record { same_dependencies = refl; same_interpreter = refl; same_has_interpreter = refl },
        h,
      ))

  verneed_from-VersionsRead :
      (left curr : ℕ) (visited : List ℕ) (strtab : Bytes) (report : VariantAbiReport)
      → Requirements report.version_requirements
      → Safe
          (VersionsRead report)
          (verneed_from r order off available left curr visited strtab report)
  unfolding verneed_from
  verneed_from-VersionsRead zero curr visited strtab report h =
      Safe-pure report (
        record { same_dependencies = refl; same_interpreter = refl; same_has_interpreter = refl },
        h,
      )
  verneed_from-VersionsRead (suc left) curr visited strtab report h =
      Safe-bind _ _ (open_verneed-IsBuffer r order off available fills curr visited)
        λ vn_buf buffer.
          Safe-uint_at order vn_buf 16 0 2 _ buffer (omega arith) (omega arith) λ version e s.
            Safe-if (not (version == 1)) _ _
              (λ other. stop_unsupported-VersionsRead version report h)
              λ known.
                Safe-bind _ _
                  (read_verneed-IsRequirement r order off available fills left curr vn_buf strtab
                    report.version_requirements buffer h)
                  λ out done.
                    Safe-weaken _
                      (verneed_from-VersionsRead left out.1 (curr ∷ visited) strtab
                        (record report { version_requirements = out.0 }) done)
                      λ after read. (
                        record {
                          same_dependencies = read.0.same_dependencies;
                          same_interpreter = read.0.same_interpreter;
                          same_has_interpreter = read.0.same_has_interpreter;
                        },
                        read.1,
                      )

finish_versions-VersionsRead :
    (before after : VariantAbiReport)
    → VersionsRead before after
    → VersionsRead before (finish_versions after)
unfolding finish_versions
finish_versions-VersionsRead before after h =
    if-cases (VersionsRead before) (is_unsupported after.completeness) _ _ (λ stopped. h)
      λ going. (
        record {
          same_dependencies = h.0.same_dependencies;
          same_interpreter = h.0.same_interpreter;
          same_has_interpreter = h.0.same_has_interpreter;
        },
        h.1,
      )

pub parse_verneed-VersionsRead :
    (r : ReaderAt) (loads : List LoadSegment) (file_size : ℕ) (order : ByteOrder) (vaddr num : ℕ)
    (strtab : Bytes) (report : VariantAbiReport)
    → FillsBuffer r
    → Requirements report.version_requirements
    → Safe (VersionsRead report) (parse_verneed r loads file_size order vaddr num strtab report)
unfolding parse_verneed
parse_verneed-VersionsRead r loads file_size order vaddr num strtab report fills h =
    Safe-guard _ _ _ λ few.
      Safe-then _ _ (Safe-if (num == 0) _ _ (λ z. Safe-pure _ tt) (λ nz. check_metadata-Safe 16)) (
        Safe-bind {P = λ t. Unit} _ _ (Safe-lift _ (translate_vaddr-Returns _ _ _ _) (λ v e. tt))
          λ off p.
            Safe-bind _ _
              (verneed_from-VersionsRead r order off (available_bytes vaddr loads) fills num off []
                strtab report h)
              λ after read. Safe-pure _ (finish_versions-VersionsRead report after read))
