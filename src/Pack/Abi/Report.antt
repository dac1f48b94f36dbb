-- ===== src/Pack/Abi/Report.antt =====
-- internal/pack/abi.go: `VariantABIReport` as an inspection fills it in. The names of the ELF type and
-- machine are their numbers.
use microfat.Base.{ℕ, Bool, true, false, List, [], ◌∷◌, ◌++◌, length, ◌==◌, if◌then◌else◌}
use microfat.Text.{Bytes, codes}

-- `unset` is the empty text, before the linkage is classified.
pub data LinkageForm : Type 0 where
  unset static static_pie dynamic ambiguous : LinkageForm

pub data Completeness : Type 0 where
  complete absent partial unsupported skipped : Completeness

pub record VersionRequirement : Type 0 where
  pub library : Bytes
  pub version : Bytes
  pub flags : ℕ

pub record VariantAbiReport : Type 0 where
  pub elf_type : ℕ
  pub machine : ℕ
  pub linkage : LinkageForm
  pub has_interpreter : Bool
  pub interpreter : Bytes
  pub dependencies : List Bytes
  pub version_requirements : List VersionRequirement
  pub completeness : Completeness
  pub inspection_source : Bytes
  pub warnings : List Bytes

-- `report.Completeness != MetadataUnsupported`, and the same for partial.
unfoldable pub is_settled : Completeness → Bool
is_settled unsupported = true
is_settled partial = true
is_settled _ = false

unfoldable pub is_unsupported : Completeness → Bool
is_unsupported unsupported = true
is_unsupported _ = false

-- `report.Warnings = append(report.Warnings, …)`
unfoldable pub warn : Bytes → VariantAbiReport → VariantAbiReport
warn text report = record report { warnings = report.warnings ++ (text ∷ []) }

unfoldable pub classify_static : VariantAbiReport → ℕ → VariantAbiReport
classify_static report e_type = record report {
  linkage = if e_type == 3 then static_pie else static;
  completeness = if is_settled report.completeness then report.completeness else absent;
}

unfoldable pub classify_linkage : VariantAbiReport → ℕ → VariantAbiReport
classify_linkage report e_type =
    if report.has_interpreter
    then record report { linkage = dynamic }
    else if length report.dependencies == 0
    then classify_static report e_type
    else warn (codes "payload declares dynamic dependencies but has no PT_INTERP")
        (record report { linkage = ambiguous })
