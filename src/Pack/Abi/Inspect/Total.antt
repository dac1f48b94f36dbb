-- ===== src/Pack/Abi/Inspect/Total.antt =====
-- `InspectELFABIReaderAtWithAccounting` as a whole.
use microfat.Pack.Abi.Inspect.Linkage.{
  IsClassified, classify_linkage-IsClassified, classify_linkage-Sound,
}
use microfat.Base.{
  ℕ, ◌*◌, ◌^◌, ◌≤◌, ◌<◌, ◌≡◌, refl, inl, inr, true, false, Option, [], ◌==◌, All, arith,
  if◌then◌else◌,
}
use microfat.Text.{Bytes}
use microfat.Words.{mul64}
use microfat.Pack.Abi.{ArtifactAccounting, InputAccounting, pure, lift}
use microfat.Pack.Abi.Reading.{
  ReaderAt, ByteOrder, little_endian, big_endian, FillsBuffer, read_exact_at, read_exact_at-Returns,
  read_exact_at-IsBuffer,
}
use microfat.Pack.Abi.Safe.{
  Safe, SharedWithin, Within, After, Safe-bind, Safe-pure, Safe-if, Safe-lift,
}
use microfat.Pack.Abi.Headers.Safe.{
  Safe-known, Safe-uint_at, Encodes, TableInFile, Passed, preflight_elf_headers-Passed, mul64_small,
}
use microfat.Pack.Abi.Segments.{parse_abi_program_headers, parse_headers_from}
use microfat.Pack.Abi.Segments.Headers.{Collected, parse_abi_program_headers-Collected}
use microfat.Pack.Abi.Dynamic.Safe.{IsName}
use microfat.Pack.Abi.Versions.Safe.{Requirements}
use microfat.Pack.Abi.Report.{VariantAbiReport, classify_linkage}
use microfat.Pack.Abi.Inspect.{
  normalize_version_requirements, inspect_in_order, inspect_with_header, inspect_elf_abi,
  inspect_elf_abi_with_accounting,
}
use microfat.Pack.Abi.Inspect.Safe.{
  Sound, IsInterpreter, read_interpreter-Sound, read_dynamic-Sound,
}
use microfat.Pack.Abi.Inspect.Increasing.{IsIncreasing}
use microfat.Pack.Abi.Inspect.Sorting.{All-normalize, normalize_version_requirements-IsIncreasing}

-- A report of an inspection: its names are texts without a NUL, and its requirements increase.
pub record IsReport (report : VariantAbiReport) : Type 0 where
  pub interpreter_ok : report.has_interpreter ≡ true → IsInterpreter report.interpreter
  pub dependencies_ok : All IsName report.dependencies
  pub requirements_ok : Requirements report.version_requirements
  pub increasing : IsIncreasing report.version_requirements
  pub classified : IsClassified report

normalized-IsReport :
    (report : VariantAbiReport)
    → Sound report
    → IsClassified report
    → IsReport (record report {
      version_requirements = normalize_version_requirements report.version_requirements;
    })
normalized-IsReport report sound c = record {
  interpreter_ok = sound.interpreter_ok;
  dependencies_ok = sound.dependencies_ok;
  requirements_ok = All-normalize _ report.version_requirements sound.requirements_ok;
  increasing = (normalize_version_requirements-IsIncreasing report.version_requirements).0;
  classified = record {
    with_interpreter = c.with_interpreter;
    without_dependencies = c.without_dependencies;
    without_interpreter = c.without_interpreter;
  };
}

order_eq :
    (order : ByteOrder) (d : ℕ)
    → Encodes order d
    → (if d == 1 then little_endian else big_endian) ≡ order
order_eq little_endian d h = rw h refl
order_eq big_endian d h = rw h refl

no_headers-Collected :
    (entsize file_size : ℕ) (order : ByteOrder)
    → Safe (Collected file_size) (parse_abi_program_headers [] 0 entsize file_size order)
unfolding parse_abi_program_headers parse_headers_from
no_headers-Collected entsize file_size order =
    Safe-pure _ (record { loads_ok = tt; interp_ok = tt; dynamic_ok = tt })

wide :
    (file_size off entsize num : ℕ)
    → TableInFile file_size off entsize num
    → (num == 0) ≡ false
    → 56 ≤ entsize
wide file_size off entsize num (inl z) nz = absurd (ground arith)
wide file_size off entsize num (inr (h, k)) nz = h

-- The table that the loop over the program headers is given.
read_table-Collected :
    (r : ReaderAt) (off entsize num file_size : ℕ) (order : ByteOrder)
    → FillsBuffer r
    → entsize < 256 ^ 2
    → num < 256 ^ 2
    → TableInFile file_size off entsize num
    → Safe
        (λ table.
          Safe (Collected file_size) (parse_abi_program_headers table num entsize file_size order))
        (if num == 0 then pure [] else lift (read_exact_at r off (mul64 num entsize)))
read_table-Collected r off entsize num file_size order fills es ns table =
    Safe-if (num == 0) _ _
      (λ z.
        let no_entry : num ≡ 0 = ground arith in
        Safe-pure [] (rw no_entry (no_headers-Collected entsize file_size order)))
      λ nz. Safe-lift _ (read_exact_at-Returns r off (mul64 num entsize)) λ bs e.
        let b = read_exact_at-IsBuffer r off (mul64 num entsize) bs fills e in
        let size : mul64 num entsize ≡ entsize * num =
          omega (arith, mul64_small num entsize (omega arith) (omega arith)) in
        parse_abi_program_headers-Collected bs order entsize file_size num (rw size at b)
          (wide file_size off entsize num table nz) es ns

inspect_in_order-IsReport :
    (r : ReaderAt) (file_size : ℕ) (header : Bytes)
    → FillsBuffer r
    → (p : Passed file_size header) → Safe IsReport (inspect_in_order r file_size header p.order)
unfolding inspect_in_order
inspect_in_order-IsReport r file_size header fills p =
    Safe-uint_at p.order header 64 16 18 _ p.buffer (omega arith) (omega arith) λ e_type e0 s0.
      Safe-uint_at p.order header 64 18 20 _ p.buffer (omega arith) (omega arith) λ e_machine e1 s1.
        Safe-known _ p.off _ p.off_eq (
          Safe-known _ p.entsize _ p.entsize_eq (
            Safe-known _ p.num _ p.num_eq (
              Safe-bind _ _
                (read_table-Collected r p.off p.entsize p.num file_size p.order fills
                  p.entsize_small p.num_small p.table)
                λ ph_table collects. Safe-bind _ _ collects λ tables c.
                  Safe-bind _ _
                    (read_interpreter-Sound r tables.interp_prog file_size _ fills c.interp_ok
                      (record {
                        interpreter_ok = λ h. cc;
                        dependencies_ok = tt;
                        requirements_ok = tt;
                      }))
                    λ with_interp i.
                      Safe-bind _ _
                        (read_dynamic-Sound r tables.dynamic_prog tables.loads file_size p.order
                          with_interp fills i)
                        λ with_dynamic sound. Safe-pure _ (
                          normalized-IsReport (classify_linkage with_dynamic e_type)
                            (classify_linkage-Sound with_dynamic e_type sound)
                            (classify_linkage-IsClassified with_dynamic e_type)))))

inspect_with_header-IsReport :
    (r : ReaderAt) (file_size : ℕ) (header : Bytes)
    → FillsBuffer r
    → Passed file_size header
    → Safe IsReport (inspect_with_header r file_size header)
unfolding inspect_with_header
inspect_with_header-IsReport r file_size header fills p =
    let (d, at_five, encodes) = p.encoding in
    Safe-known _ d _ at_five
      (rw (order_eq p.order d encodes) (inspect_in_order-IsReport r file_size header fills p))

-- The inspection of any file, through any reader, within the budgets that it is given.
pub inspect_elf_abi-IsReport :
    (r : ReaderAt) (file_size : ℕ) → FillsBuffer r → Safe IsReport (inspect_elf_abi r file_size)
unfolding inspect_elf_abi
inspect_elf_abi-IsReport r file_size fills =
    Safe-bind _ _ (preflight_elf_headers-Passed r file_size fills)
      λ header p. inspect_with_header-IsReport r file_size header fills p

abbrev pub fresh : Option ArtifactAccounting → InputAccounting
fresh shared = record {
  shared = shared;
  max_metadata_bytes = 0;
  max_string_bytes = 0;
  max_string_scan_bytes = 0;
  max_version_records = 0;
  metadata_bytes_read = 0;
  string_scan_bytes_read = 0;
  retained_string_bytes = 0;
  version_records = 0;
}

pub fresh-Within :
    (shared : Option ArtifactAccounting) → SharedWithin shared → Within (fresh shared)
fresh-Within shared h = record {
  metadata_within = omega arith;
  metadata_fits = omega arith;
  scan_within = omega arith;
  scan_fits = omega arith;
  strings_within = omega arith;
  strings_fit = omega arith;
  records_within = omega arith;
  records_fit = omega arith;
  shared_within = h;
}

-- The inspection of one input on a fresh accounting.
pub inspect_elf_abi_with_accounting-After :
    (r : ReaderAt) (file_size : ℕ) (shared : Option ArtifactAccounting)
    → FillsBuffer r
    → SharedWithin shared
    → After (fresh shared) IsReport (inspect_elf_abi_with_accounting r file_size shared)
unfolding inspect_elf_abi_with_accounting
inspect_elf_abi_with_accounting-After r file_size shared fills h =
    (inspect_elf_abi-IsReport r file_size fills).of (fresh shared) (fresh-Within shared h)
