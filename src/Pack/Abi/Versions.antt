-- ===== src/Pack/Abi/Versions.antt =====
-- internal/pack/abi.go: the records of the versions that a dynamic object needs: the chain of
-- `Elf64_Verneed`, and for each library its chain of `Elf64_Vernaux`. The map of visited offsets is their
-- list.
pub mod Offsets
pub mod Safe
use microfat.Base.{
  ℕ, zero, suc, ◌+◌, ◌-◌, ◌^◌, Bool, true, false, not, ◌&&◌, ◌||◌, List, [], ◌∷◌, ◌++◌, ◌==◌, ltb,
  leb, length, if◌then◌else◌,
}
use microfat.Text.{Bytes, codes}
use microfat.Text.Number.{itoa}
use microfat.Words.{add64, sub64}
use microfat.Pack.Abi.{
  Act, metadata, resource_limit, lift, pure, fail, fail_if, ◌>>=◌, ◌>>◌,
  max_version_records_per_input,
}
use microfat.Pack.Abi.Accounting.{
  check_metadata, charge_metadata, charge_string, charge_version_record,
}
use microfat.Pack.Abi.Reading.{ReaderAt, ByteOrder, uint_at, read_into_at}
use microfat.Pack.Abi.Strings.{scan_bounded_c_string}
use microfat.Pack.Abi.Dynamic.{clip}
use microfat.Pack.Abi.Segments.{LoadSegment}
use microfat.Pack.Abi.Segments.Translate.{covers, translate_vaddr}
use microfat.Pack.Abi.Report.{
  VersionRequirement, VariantAbiReport, unsupported, complete, is_unsupported, warn,
}

-- `relOffset&signBit == 0` on a 32-bit word.
unfoldable pub is_forward : ℕ → Bool
is_forward rel = ltb rel (2 ^ 31)

-- The step of a chain: a signed 32-bit distance.
unfoldable pub advance_elf_relative_offset : ℕ → ℕ → ℕ → ℕ → ℕ → Act ℕ
unfolding is_forward
advance_elf_relative_offset curr_off rel_offset min_off max_off entry_size = do
  fail_if (rel_offset == 0) metadata
  fail_if (not (is_forward rel_offset) && ltb curr_off (2 ^ 32 - rel_offset)) metadata
  let new_off =
      if is_forward rel_offset then add64 curr_off rel_offset else curr_off - (2 ^ 32 - rel_offset)
  fail_if (ltb new_off min_off || ltb max_off (add64 new_off entry_size)) metadata
  pure new_off

-- `available < 16 || curr < off || curr > (off + available) - 16`
unfoldable pub out_of_bounds : ℕ → ℕ → ℕ → Bool
out_of_bounds off available curr =
    ltb available 16 || ltb curr off || ltb (sub64 (add64 off available) 16) curr

unfoldable pub overlaps : ℕ → ℕ → Bool
overlaps curr parent = ltb curr (add64 parent 16) && ltb parent (add64 curr 16)

unfoldable pub is_visited : ℕ → List ℕ → Bool
is_visited off [] = false
is_visited off (v ∷ vs) = off == v || is_visited off vs

-- Where the next record is; the last one has no next.
unfoldable pub next_offset : ℕ → ℕ → ℕ → ℕ → ℕ → Act ℕ
next_offset left curr next off available =
    if ltb 0 left
    then (fail_if (next == 0) metadata
        >> advance_elf_relative_offset curr next off (add64 off available) 16)
    else (fail_if (not (next == 0)) metadata >> pure curr)

module _ (r : ReaderAt) (order : ByteOrder) (off available : ℕ) where
  -- One record of the inner chain: its requirement, and the distance to the next.
  unfoldable pub read_vernaux : ℕ → ℕ → List ℕ → Bytes → Bytes → Act (VersionRequirement × ℕ)
  read_vernaux parent curr visited lib_name strtab = do
    charge_version_record
    charge_metadata 16
    fail_if (out_of_bounds off available curr) metadata
    fail_if (overlaps curr parent) metadata
    fail_if (is_visited curr visited) metadata
    aux_buf ← lift (read_into_at r 16 curr)
    vna_flags ← lift (uint_at order aux_buf 4 6)
    vna_name ← lift (uint_at order aux_buf 8 12)
    vna_next ← lift (uint_at order aux_buf 12 16)
    ver_name ← scan_bounded_c_string strtab vna_name true
    pure (record { library = lib_name; version = ver_name; flags = vna_flags }, vna_next)

  -- The inner loop, with `left` records to read, and the requirements so far.
  unfoldable pub vernaux_from :
      ℕ → ℕ → ℕ → List ℕ → Bytes → Bytes → List VersionRequirement → Act (List VersionRequirement)
  vernaux_from zero parent curr visited lib_name strtab reqs = pure reqs
  vernaux_from (suc left) parent curr visited lib_name strtab reqs = do
    (req, vna_next) ← read_vernaux parent curr visited lib_name strtab
    next ← next_offset left curr vna_next off available
    vernaux_from left parent next (curr ∷ visited) lib_name strtab (reqs ++ (req ∷ []))

  unfoldable pub parse_vernaux_chain :
      ℕ → ℕ → ℕ → Bytes → Bytes → ℕ → List VersionRequirement → Act (List VersionRequirement)
  parse_vernaux_chain curr cnt parent lib_name strtab strtab_size reqs =
      vernaux_from cnt parent curr [] lib_name (clip strtab strtab_size) reqs

  unfoldable pub validate_verneed_aux_offset : ℕ → ℕ → ℕ → Act Unit
  validate_verneed_aux_offset vn_cnt vn_aux curr =
      if vn_cnt == 0
      then pure tt
      else (fail_if (ltb vn_aux 16) metadata
          >> fail_if
              (ltb (sub64 (add64 off available) curr) 16
                || ltb (sub64 (add64 off available) curr - 16) vn_aux)
              metadata)

  -- The requirements of one library.
  unfoldable pub library_versions :
      ℕ → ℕ → ℕ → Bytes → Bytes → List VersionRequirement → Act (List VersionRequirement)
  library_versions vn_cnt vn_aux curr lib_name strtab reqs =
      if vn_cnt == 0
      then pure reqs
      else parse_vernaux_chain (add64 curr vn_aux) vn_cnt curr lib_name strtab (length strtab) reqs

  -- A record of the outer chain, of the version that is known; `left` more follow.
  unfoldable pub read_verneed :
      ℕ → ℕ → Bytes → Bytes → List VersionRequirement → Act (List VersionRequirement × ℕ)
  read_verneed left curr vn_buf strtab reqs = do
    vn_cnt ← lift (uint_at order vn_buf 2 4)
    vn_file ← lift (uint_at order vn_buf 4 8)
    vn_aux ← lift (uint_at order vn_buf 8 12)
    vn_next ← lift (uint_at order vn_buf 12 16)
    validate_verneed_aux_offset vn_cnt vn_aux curr
    lib_name ← scan_bounded_c_string strtab vn_file true
    reqs' ← library_versions vn_cnt vn_aux curr lib_name strtab reqs
    next ← next_offset left curr vn_next off available
    pure (reqs', next)

  -- The loop ends at a record of another version, with a warning.
  unfoldable pub stop_unsupported : ℕ → VariantAbiReport → Act VariantAbiReport
  stop_unsupported version report = do
    let text = codes "unsupported Elf64_Verneed version " ++ itoa version
    charge_string (length text)
    pure (warn text (record report { completeness = unsupported }))

  unfoldable pub open_verneed : ℕ → List ℕ → Act Bytes
  open_verneed curr visited = do
    charge_version_record
    charge_metadata 16
    fail_if (out_of_bounds off available curr) metadata
    fail_if (is_visited curr visited) metadata
    lift (read_into_at r 16 curr)

  unfoldable pub verneed_from : ℕ → ℕ → List ℕ → Bytes → VariantAbiReport → Act VariantAbiReport
  verneed_from zero curr visited strtab report = pure report
  verneed_from (suc left) curr visited strtab report = do
    vn_buf ← open_verneed curr visited
    vn_version ← lift (uint_at order vn_buf 0 2)
    if not (vn_version == 1)
        then stop_unsupported vn_version report
        else (read_verneed left curr vn_buf strtab report.version_requirements >>= λ out.
            verneed_from left out.1 (curr ∷ visited) strtab
              (record report { version_requirements = out.0 }))

-- The rest of the segment that the address is in.
unfoldable pub available_bytes : ℕ → List LoadSegment → ℕ
available_bytes vaddr [] = 0
available_bytes vaddr (seg ∷ segs) =
    let rest = available_bytes vaddr segs in
    if covers vaddr seg then seg.filesz - (vaddr - seg.vaddr) else rest

unfoldable pub finish_versions : VariantAbiReport → VariantAbiReport
finish_versions report =
    if is_unsupported report.completeness then report else record report { completeness = complete }

unfoldable pub parse_verneed :
    ReaderAt
    → List LoadSegment
    → ℕ
    → ByteOrder
    → ℕ
    → ℕ
    → Bytes
    → VariantAbiReport
    → Act VariantAbiReport
parse_verneed r loads file_size order vaddr num strtab report = do
  fail_if (ltb max_version_records_per_input num) resource_limit
  if num == 0 then pure tt else check_metadata 16
  off ← lift (translate_vaddr loads file_size vaddr 16)
  report' ← verneed_from r order off (available_bytes vaddr loads) num off [] strtab report
  pure (finish_versions report')
