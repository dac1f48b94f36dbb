-- ===== src/Tests/AbiRuns.antt =====
-- Runs of internal/pack/abi.go.
use microfat.Base.{
  ◌+◌, ◌-◌, ◌≤◌, ◌<◌, All, Bool, ltb, ◌&&◌, ◌≡◌, ◌↔◌, refl, true, none, List, [], ◌∷◌, ◌++◌, arith,
  replicate, length,
}
use microfat.Text.{Bytes, codes}
use microfat.Result.{ok}
use microfat.Words.{IsByte}
use microfat.Pack.Abi.Inspect.FromBytes.{
  inspect_elf_abi_bytes, bytes_reader, inspect_elf_abi_bytes-After,
}
use microfat.Pack.Abi.Inspect.Total.{IsReport, fresh, fresh-Within}
use microfat.Pack.Abi.Inspect.Increasing.{IsIncreasing}
use microfat.Pack.Abi.Inspect.Order.{InOrder}
use microfat.Pack.Abi.Inspect.Sorting.{normalize_version_requirements-IsIncreasing}
use microfat.Pack.Abi.Safe.{After}
use microfat.Pack.Abi.Strings.Scan.{Fits}
use microfat.Pack.Abi.Strings.Succeeds.{scan_bounded_c_string-succeeds}
use microfat.Pack.Abi.Strings.Found.{IsText, scan_bounded_c_string-After}
use microfat.Pack.Abi.Segments.{LoadSegment}
use microfat.Pack.Abi.Segments.Exact.{covering, translate_vaddr_iff}
use microfat.Pack.Abi.Versions.Offsets.{IsStep, advance_elf_relative_offset_iff}
use microfat.Pack.Abi.Escape.{
  escape_metadata, escaped_metadata_len, escape_from, decode_rune, piece, hex_escape, hex_digit,
  is_control, encode_rune,
}
use microfat.Pack.Abi.Escape.Exact.{IsPlain, escape_metadata-IsPlain}
use microfat.Pack.Abi.Report.{VersionRequirement}
use microfat.Pack.Abi.Report.{dynamic, absent}
use microfat.Pack.Abi.{lift, ◌>>=◌, fail_if}
use microfat.Pack.Abi.Accounting.{
  new_artifact_accounting, shared_exceeds, shared_commit, shared_remaining, shared_refund,
  check_metadata, charge_metadata, remaining_metadata_budget, check_string_scan,
  check_and_charge_string_scan, remaining_string_scan_budget, refund_all_string_scan, charge_string,
  charge_version_record,
}
use microfat.Pack.Abi.Dynamic.{
  conflicts, apply_tag, scan_entries, scan_dynamic_entries_buf, needed_from, clip,
  parse_needed_dependencies, validate_version_tag_pairing, read_strtab, resolve_dynamic_strtab,
}
use microfat.Pack.Abi.Headers.{
  data_encoding, validate_elf_header_magic_and_encoding, check_program_header_table,
  validate_program_header_table, check_extended_section_table, check_section_zero,
  check_section_table, check_section_headers, validate_section_header_table, preflight_elf_headers,
}
use microfat.Pack.Abi.Inspect.{
  parse_versions, parse_dynamic_metadata, interpreter_text, read_interpreter, read_dynamic,
  same_requirement, is_seen, distinct_from, bytes_less, requirement_less, insert_requirement,
  sort_requirements, normalize_version_requirements, inspect_in_order, inspect_with_header,
  inspect_elf_abi, inspect_elf_abi_with_accounting,
}
use microfat.Pack.Abi.Reading.{
  is_bad_read, read_into_at, read_exact_at, get_uint_be, order_uint, uint_at,
}
use microfat.Pack.Abi.Report.{is_settled, is_unsupported, warn, classify_static, classify_linkage}
use microfat.Pack.Abi.Segments.{
  beyond_file, add_load, add_interp, add_dynamic, add_program, parse_program_header,
  parse_headers_from, parse_abi_program_headers,
}
use microfat.Pack.Abi.Segments.Translate.{
  covers, file_off, bad_range, match_segments, single_match, translate_vaddr,
}
use microfat.Pack.Abi.Strings.{
  to_charge, refund_unread, after_chunk, scan_chunk, scan_chunks, finish_string,
  scan_bounded_c_string,
}
use microfat.Pack.Abi.Versions.{
  is_forward, advance_elf_relative_offset, out_of_bounds, overlaps, is_visited, next_offset,
  read_vernaux, vernaux_from, parse_vernaux_chain, validate_verneed_aux_offset, library_versions,
  read_verneed, stop_unsupported, open_verneed, verneed_from, available_bytes, finish_versions,
  parse_verneed,
}
use microfat.Words.{get_uint}
use microfat.Format.Buffer.{slice, index}
use microfat.Text.{index_byte, bytes_eq}

abbrev below_256 : Bytes → Bool
below_256 [] = true
below_256 (b ∷ bs) = ltb b 256 && below_256 bs

-- An executable of 64 bits with one program header, which names its interpreter.
abbrev interp_elf : Bytes
interp_elf =
    127 ∷ codes "ELF"
    ++ 2 ∷ 1 ∷ 1 ∷ replicate 9 0
    ++ (2 ∷ 0 ∷ [])
    ++ (62 ∷ 0 ∷ [])
    ++ (1 ∷ 0 ∷ 0 ∷ 0 ∷ [])
    ++ replicate 8 0
    ++ (64 ∷ replicate 7 0)
    ++ replicate 8 0
    ++ replicate 4 0
    ++ (64 ∷ 0 ∷ [])
    ++ (56 ∷ 0 ∷ [])
    ++ (1 ∷ 0 ∷ [])
    ++ replicate 6 0
    ++ (3 ∷ 0 ∷ 0 ∷ 0 ∷ [])
    ++ replicate 4 0
    ++ (120 ∷ replicate 7 0)
    ++ replicate 16 0
    ++ (4 ∷ replicate 7 0)
    ++ (4 ∷ replicate 7 0)
    ++ replicate 8 0
    ++ codes "/ld"
    ++ (0 ∷ [])

all_bytes : (bs : Bytes) → below_256 bs ≡ true → All IsByte bs
all_bytes [] h = tt
all_bytes (b ∷ bs) h = (ground arith, all_bytes bs (ground arith))

interp_elf-bytes : All IsByte interp_elf
interp_elf-bytes = all_bytes interp_elf refl

interp_elf-length : length interp_elf ≡ 124
interp_elf-length = refl

-- Its report names the interpreter, and the linkage is dynamic.
sample_report :
    (inspect_elf_abi_bytes interp_elf none).0
    ≡ ok (record {
      elf_type = 2;
      machine = 62;
      linkage = dynamic;
      has_interpreter = true;
      interpreter = codes "/ld";
      dependencies = [];
      version_requirements = [];
      completeness = absent;
      inspection_source = codes "program_headers";
      warnings = [];
    })
unfolding lift ◌>>=◌ fail_if is_forward advance_elf_relative_offset out_of_bounds overlaps
    is_visited next_offset read_vernaux vernaux_from parse_vernaux_chain validate_verneed_aux_offset
    library_versions read_verneed stop_unsupported open_verneed verneed_from available_bytes
    finish_versions parse_verneed is_settled is_unsupported warn classify_static classify_linkage
    is_bad_read read_into_at read_exact_at get_uint_be order_uint uint_at new_artifact_accounting
    shared_exceeds shared_commit shared_remaining shared_refund check_metadata charge_metadata
    remaining_metadata_budget check_string_scan check_and_charge_string_scan
    remaining_string_scan_budget refund_all_string_scan charge_string charge_version_record
    data_encoding validate_elf_header_magic_and_encoding check_program_header_table
    validate_program_header_table check_extended_section_table check_section_zero
    check_section_table check_section_headers validate_section_header_table preflight_elf_headers
    parse_versions parse_dynamic_metadata interpreter_text read_interpreter read_dynamic
    same_requirement is_seen distinct_from bytes_less requirement_less insert_requirement
    sort_requirements normalize_version_requirements inspect_in_order inspect_with_header
    inspect_elf_abi inspect_elf_abi_with_accounting conflicts apply_tag scan_entries
    scan_dynamic_entries_buf needed_from clip parse_needed_dependencies validate_version_tag_pairing
    read_strtab resolve_dynamic_strtab beyond_file add_load add_interp add_dynamic add_program
    parse_program_header parse_headers_from parse_abi_program_headers to_charge refund_unread
    after_chunk scan_chunk scan_chunks finish_string scan_bounded_c_string bytes_reader
    inspect_elf_abi_bytes covers file_off bad_range match_segments single_match translate_vaddr
    get_uint slice index index_byte bytes_eq
sample_report = refl

-- A file of 4096 bytes with two segments, of which the second is in memory only.
abbrev two_segments : List LoadSegment
two_segments =
    record { off = 0; vaddr = 4096; filesz = 2048; memsz = 2048 }
    ∷ record { off = 2048; vaddr = 8192; filesz = 0; memsz = 4096 }
    ∷ []

translate_vaddr_iff_example : (translate_vaddr two_segments 4096 4352 64 ≡ ok 256) ↔ (
    (seg : LoadSegment) × (covering 4352 two_segments ≡ seg ∷ [])
    × (64 ≤ seg.vaddr + seg.filesz - 4352)
    × (256 ≡ seg.off + (4352 - seg.vaddr))
    × (256 + 64 ≤ 4096))
translate_vaddr_iff_example =
    translate_vaddr_iff two_segments 4096 4352 64 256 (omega arith)
      ((omega arith, omega arith, omega arith), ((omega arith, omega arith, omega arith), tt))

translated : translate_vaddr two_segments 4096 4352 64 ≡ ok 256
unfolding translate_vaddr match_segments single_match covers bad_range file_off
translated = refl

-- A table of strings with an entry at 1.
abbrev sample_strtab : Bytes
sample_strtab = 0 ∷ codes "libc.so.6" ++ (0 ∷ [])

scan_bounded_c_string-After_example :
    After
      (fresh none)
      (IsText sample_strtab 1 true)
      (scan_bounded_c_string sample_strtab 1 true (fresh none))
scan_bounded_c_string-After_example =
    scan_bounded_c_string-After sample_strtab 1 true (fresh none) (fresh-Within none tt)

-- The ten bytes behind the first fit.
sample-Fits : Fits (fresh none) 10
unfolding shared_exceeds
sample-Fits = (refl, refl, refl)

scan_bounded_c_string-succeeds_example :
    (scan_bounded_c_string sample_strtab 1 true (fresh none)).0 ≡ ok (codes "libc.so.6")
scan_bounded_c_string-succeeds_example =
    scan_bounded_c_string-succeeds sample_strtab 1 true (codes "libc.so.6") [] (fresh none)
      (fresh-Within none tt) refl
      (
        omega arith,
        (
          omega arith,
          (
            omega arith,
            (
              omega arith,
              (omega arith, (omega arith, (omega arith, (omega arith, (omega arith, tt))))),
            ),
          ),
        ),
      )
      refl sample-Fits refl

inspect_elf_abi_bytes-After_example :
    After (fresh none) IsReport (inspect_elf_abi_bytes interp_elf none)
inspect_elf_abi_bytes-After_example =
    inspect_elf_abi_bytes-After interp_elf none interp_elf-bytes tt

abbrev two_versions : List VersionRequirement
two_versions =
    record { library = codes "libc.so.6"; version = codes "GLIBC_2.34"; flags = 0 }
    ∷ record { library = codes "libc.so.6"; version = codes "GLIBC_2.17"; flags = 0 }
    ∷ record { library = codes "libc.so.6"; version = codes "GLIBC_2.34"; flags = 0 }
    ∷ []

normalize_version_requirements-IsIncreasing_example :
    IsIncreasing (normalize_version_requirements two_versions)
    × InOrder (normalize_version_requirements two_versions)
    × ((v : VersionRequirement)
        → is_seen v (normalize_version_requirements two_versions) ≡ is_seen v two_versions)
normalize_version_requirements-IsIncreasing_example =
    normalize_version_requirements-IsIncreasing two_versions

-- Sixteen bytes back, from 160.
advance_elf_relative_offset_iff_example :
    (advance_elf_relative_offset 160 4294967280 128 512 16 (fresh none) ≡ (ok 144, fresh none))
    ↔ ((0 < 4294967280) × IsStep 160 4294967280 144 × (128 ≤ 144) × (144 + 16 ≤ 512))
advance_elf_relative_offset_iff_example =
    advance_elf_relative_offset_iff 160 4294967280 128 512 16 144 (fresh none) (omega arith)
      (omega arith) (omega arith)

escape_metadata-IsPlain_example :
    All IsPlain (escape_metadata (65 ∷ 27 ∷ 200 ∷ []))
    × (length (escape_metadata (65 ∷ 27 ∷ 200 ∷ []))
        ≡ (escaped_metadata_len (65 ∷ 27 ∷ 200 ∷ [])).0)
escape_metadata-IsPlain_example =
    escape_metadata-IsPlain (65 ∷ 27 ∷ 200 ∷ []) (omega arith, (omega arith, (omega arith, tt)))

-- A newline is written in hexadecimal, like any control character.
newline_escaped : escape_metadata (codes "a" ++ (10 ∷ [])) ≡ codes "a\\x0a"
unfolding escape_metadata escape_from decode_rune piece hex_escape hex_digit is_control encode_rune
newline_escaped = refl
