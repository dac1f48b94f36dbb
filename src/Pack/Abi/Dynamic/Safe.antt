-- ===== src/Pack/Abi/Dynamic/Safe.antt =====
-- Lemmas on the calls that read the dynamic section.
use microfat.Base.{
  ℕ, zero, suc, ◌+◌, ◌*◌, ◌≤◌, ◌<◌, ◌≢◌, refl, true, not, ◌&&◌, ◌||◌, List, [], ◌∷◌, ◌==◌, ltb,
  length, All, arith, All-append,
}
use microfat.Text.{Bytes}
use microfat.Result.{Returns, Returns-ok, Returns-err, Returns-bind, Returns-either, Returns-guard}
use microfat.Pack.Abi.{metadata}
use microfat.Pack.Abi.Reading.{ReaderAt, ByteOrder, IsBuffer, read_exact_at-Returns}
use microfat.Pack.Abi.Safe.{Safe, Safe-bind, Safe-pure, Safe-if, Safe-fail, Safe-lift}
use microfat.Pack.Abi.Safe.Charges.{charge_metadata-Safe}
use microfat.Pack.Abi.Headers.Safe.{Safe-guard, Safe-then, Safe-uint_at}
use microfat.Pack.Abi.Strings.Found.{IsText, scan_bounded_c_string-Safe}
use microfat.Pack.Abi.Segments.{LoadSegment}
use microfat.Pack.Abi.Segments.Translate.{
  covers, file_off, bad_range, match_segments, single_match, translate_vaddr,
}
use microfat.Pack.Abi.Dynamic.{
  DynamicTags, apply_tag, scan_entries, scan_dynamic_entries_buf, needed_from, clip,
  parse_needed_dependencies, validate_version_tag_pairing, read_strtab, resolve_dynamic_strtab,
}

-- A text that is not empty and holds no NUL.
abbrev pub IsName : Bytes → Type 0
IsName str = (str ≢ []) × All (λ b. 0 < b) str

pub IsText-IsName :
    (strtab : Bytes) (off : ℕ) (str : Bytes) → IsText strtab off true str → IsName str
IsText-IsName strtab off str (found, full) = (full refl, found.no_nul)

match_segments-Returns :
    (file_size vaddr size : ℕ) (loads : List LoadSegment) (found count : ℕ)
    → Returns (match_segments file_size vaddr size loads found count)
unfolding match_segments
match_segments-Returns file_size vaddr size [] found count = Returns-ok (found, count)
match_segments-Returns file_size vaddr size (seg ∷ segs) found count =
    let skip = match_segments-Returns file_size vaddr size segs found count in
    let next = match_segments-Returns file_size vaddr size segs (file_off vaddr seg) (suc count) in
    Returns-either (seg.filesz == 0) _ _ skip (
      Returns-either (covers vaddr seg) _ _
        (Returns-either (bad_range file_size vaddr size seg) _ _ (Returns-err metadata) next) skip)

single_match-Returns : (r : ℕ × ℕ) → Returns (single_match r)
unfolding single_match
single_match-Returns (f, c) =
    Returns-either (c == 0) _ _ (Returns-err metadata)
      (Returns-either (ltb 1 c) _ _ (Returns-err metadata) (Returns-ok f))

pub translate_vaddr-Returns :
    (loads : List LoadSegment) (file_size vaddr size : ℕ)
    → Returns (translate_vaddr loads file_size vaddr size)
unfolding translate_vaddr
translate_vaddr-Returns loads file_size vaddr size =
    Returns-guard (ltb file_size size) metadata _ λ h.
      Returns-bind _ _ (match_segments-Returns file_size vaddr size loads 0 0)
        (λ r e. single_match-Returns r)

-- A tag is stored or refused.
apply_tag-Safe :
    (d_tag d_val : ℕ) (tags : DynamicTags) → Safe (λ t. Unit) (apply_tag d_tag d_val tags)
unfolding apply_tag
apply_tag-Safe d_tag d_val tags =
    Safe-if (d_tag == 1) _ _ (λ h. Safe-pure _ tt)
      λ h.
        Safe-if (d_tag == 5) _ _ (λ k. Safe-guard _ _ _ λ c. Safe-pure _ tt)
          λ k.
            Safe-if (d_tag == 10) _ _ (λ k. Safe-guard _ _ _ λ c. Safe-pure _ tt)
              λ k.
                Safe-if (d_tag == 1879048190) _ _ (λ k. Safe-guard _ _ _ λ c. Safe-pure _ tt)
                  λ k.
                    Safe-if (d_tag == 1879048191) _ _ (λ k. Safe-guard _ _ _ λ c. Safe-pure _ tt)
                      λ k. Safe-pure _ tt

scan_entries-Safe :
    (dyn_bytes : Bytes) (order : ByteOrder) (size left i : ℕ) (tags : DynamicTags)
    → IsBuffer size dyn_bytes
    → (i + left) * 16 ≤ size
    → Safe (λ t. Unit) (scan_entries dyn_bytes order left i tags)
unfolding scan_entries
scan_entries-Safe dyn_bytes order size zero i tags b h = Safe-pure _ tt
scan_entries-Safe dyn_bytes order size (suc left) i tags b h =
    Safe-uint_at order dyn_bytes size _ _ _ b (omega arith) (omega arith) λ d_tag e0 s0.
      Safe-uint_at order dyn_bytes size _ _ _ b (omega arith) (omega arith) λ d_val e1 s1.
        Safe-if (d_tag == 0) _ _ (λ k. Safe-pure _ tt)
          λ k.
            Safe-bind _ _ (apply_tag-Safe d_tag d_val tags)
              λ t p. scan_entries-Safe dyn_bytes order size left (suc i) t b (omega arith)

pub scan_dynamic_entries_buf-Safe :
    (dyn_bytes : Bytes) (num : ℕ) (order : ByteOrder)
    → IsBuffer (num * 16) dyn_bytes
    → Safe (λ t. Unit) (scan_dynamic_entries_buf dyn_bytes num order)
unfolding scan_dynamic_entries_buf
scan_dynamic_entries_buf-Safe dyn_bytes num order b =
    Safe-bind _ _ (scan_entries-Safe dyn_bytes order (num * 16) num 0 _ b (omega arith))
      λ t p. Safe-guard _ _ _ λ h. Safe-pure _ tt

pub validate_version_tag_pairing-Safe :
    (tags : DynamicTags) → Safe (λ t. Unit) (validate_version_tag_pairing tags)
unfolding validate_version_tag_pairing
validate_version_tag_pairing-Safe tags =
    Safe-if (not tags.has_verneed && not tags.has_verneed_num) _ _ (λ h. Safe-pure _ tt)
      λ h.
        Safe-if (tags.has_verneed && not tags.has_verneed_num) _ _ (λ k. Safe-fail _)
          λ k.
            Safe-if (not tags.has_verneed && tags.has_verneed_num) _ _ (λ l. Safe-fail _)
              λ l. Safe-pure _ tt

needed_from-IsName :
    (strtab : Bytes) (offs : List ℕ) (deps : List Bytes)
    → All IsName deps
    → Safe (All IsName) (needed_from strtab offs deps)
unfolding needed_from
needed_from-IsName strtab [] deps h = Safe-pure deps h
needed_from-IsName strtab (off ∷ offs) deps h =
    Safe-bind _ _ (scan_bounded_c_string-Safe strtab off true) λ name text.
      needed_from-IsName strtab offs _
        (All-append IsName deps (name ∷ []) h ((IsText-IsName strtab off name text), tt))

pub parse_needed_dependencies-IsName :
    (strtab : Bytes) (size : ℕ) (offs : List ℕ)
    → Safe (All IsName) (parse_needed_dependencies strtab size offs)
unfolding parse_needed_dependencies
parse_needed_dependencies-IsName strtab size offs =
    Safe-guard _ _ _ λ few. needed_from-IsName (clip strtab size) offs [] tt

pub resolve_dynamic_strtab-Safe :
    (r : ReaderAt) (loads : List LoadSegment) (file_size : ℕ) (tags : DynamicTags)
    → Safe (λ t. Unit) (resolve_dynamic_strtab r loads file_size tags)
unfolding resolve_dynamic_strtab read_strtab
resolve_dynamic_strtab-Safe r loads file_size tags =
    Safe-if (ltb 0 (length tags.needed_offsets) || (tags.has_verneed && ltb 0 tags.verneed_num)) _ _
      (λ h. Safe-guard _ _ _ λ a. Safe-guard _ _ _ λ b. Safe-then _ _ (charge_metadata-Safe _) (
        Safe-bind {P = λ t. Unit} _ _ (Safe-lift _ (translate_vaddr-Returns _ _ _ _) (λ v e. tt))
          λ off p. Safe-lift _ (read_exact_at-Returns r off tags.strtab_size) (λ v e. tt)))
      (λ h. Safe-pure _ tt)
