-- ===== src/Pack/Abi/Segments/Exact.antt =====
-- `translateVaddr`, compared with the segments that cover an address.
use microfat.Base.{
  ℕ, suc, ◌+◌, ◌-◌, ◌^◌, ◌≤◌, ◌<◌, ◌≡◌, refl, ap, sym, ◌∙◌, ◌↔◌, ◌⊎◌, inl, inr, Bool, true, false,
  ◌&&◌, Bool-cases, List, [], ◌∷◌, All, length, ltb, leb, ◌==◌, arith, if◌then◌else◌,
}
use microfat.Result.{ok, err, reject_if, >>=-eq-ok}
use microfat.Pack.Abi.{metadata}
use microfat.Pack.Abi.Segments.{LoadSegment}
use microfat.Pack.Abi.Segments.Headers.{IsLoadable}
use microfat.Pack.Abi.Segments.Translate.{
  covers, file_off, bad_range, match_segments, single_match, translate_vaddr,
}

-- The segments with the address in their file-backed part.
abbrev pub is_within : ℕ → LoadSegment → Bool
is_within vaddr seg = leb seg.vaddr vaddr && ltb vaddr (seg.vaddr + seg.filesz)

abbrev pub covering : ℕ → List LoadSegment → List LoadSegment
covering vaddr [] = []
covering vaddr (seg ∷ segs) =
    if is_within vaddr seg then seg ∷ covering vaddr segs else covering vaddr segs

∷-parts : {a b : LoadSegment} {l m : List LoadSegment} → (a ∷ l) ≡ (b ∷ m) → (a ≡ b) × (l ≡ m)
∷-parts e = (cc, cc)

module _ (file_size vaddr size : ℕ) where
  -- One turn of the loop, on a segment that the checks on the program headers let through.
  match_segments-skip :
      (seg : LoadSegment) (segs : List LoadSegment) (found count : ℕ)
      → IsLoadable file_size seg
      → is_within vaddr seg ≡ false
      → match_segments file_size vaddr size (seg ∷ segs) found count
        ≡ match_segments file_size vaddr size segs found count
  unfolding match_segments covers
  match_segments-skip seg segs found count ok_seg out = ground arith

  file_off_exact :
      (seg : LoadSegment)
      → file_size < 2 ^ 64
      → IsLoadable file_size seg
      → is_within vaddr seg ≡ true
      → file_off vaddr seg ≡ seg.off + (vaddr - seg.vaddr)
  unfolding file_off
  file_off_exact seg fits ok_seg inside = ground arith

  covers_exact :
      (seg : LoadSegment)
      → IsLoadable file_size seg
      → is_within vaddr seg ≡ true
      → covers vaddr seg ≡ true
  unfolding covers
  covers_exact seg ok_seg inside = ground arith

  bad_range_exact :
      (seg : LoadSegment)
      → file_size < 2 ^ 64
      → IsLoadable file_size seg
      → is_within vaddr seg ≡ true
      → size ≤ seg.vaddr + seg.filesz - vaddr
      → bad_range file_size vaddr size seg ≡ false
  unfolding bad_range
  bad_range_exact seg fits ok_seg inside fit =
      rw (file_off_exact seg fits ok_seg inside) (ground arith)

  match_segments-good :
      (seg : LoadSegment) (segs : List LoadSegment) (found count : ℕ)
      → file_size < 2 ^ 64
      → IsLoadable file_size seg
      → is_within vaddr seg ≡ true
      → size ≤ seg.vaddr + seg.filesz - vaddr
      → match_segments file_size vaddr size (seg ∷ segs) found count
        ≡ match_segments file_size vaddr size segs (seg.off + (vaddr - seg.vaddr)) (suc count)
  unfolding match_segments
  match_segments-good seg segs found count fits ok_seg inside fit =
      let z : (seg.filesz == 0) ≡ false = ground arith in
      rw
        (
          z,
          covers_exact seg ok_seg inside,
          bad_range_exact seg fits ok_seg inside fit,
          file_off_exact seg fits ok_seg inside,
        )
        refl

  match_segments-bad :
      (seg : LoadSegment) (segs : List LoadSegment) (found count : ℕ)
      → IsLoadable file_size seg
      → is_within vaddr seg ≡ true
      → seg.vaddr + seg.filesz - vaddr < size
      → match_segments file_size vaddr size (seg ∷ segs) found count ≡ err metadata
  unfolding match_segments covers bad_range file_off
  match_segments-bad seg segs found count ok_seg inside fit = ground arith

  -- The loop counts the segments that cover the address.
  match_segments-count :
      (loads : List LoadSegment) (found count f c : ℕ)
      → file_size < 2 ^ 64
      → All (IsLoadable file_size) loads
      → match_segments file_size vaddr size loads found count ≡ ok (f, c)
      → c ≡ count + length (covering vaddr loads)
  unfolding match_segments
  match_segments-count [] found count f c fits h e = ground arith
  match_segments-count (seg ∷ segs) found count f c fits (ok_seg, h) e =
      elim (Bool-cases (is_within vaddr seg)) [
        | inl inside ↦ elim (Bool-cases (ltb (seg.vaddr + seg.filesz - vaddr) size)) [
          | inl long ↦
              let bad = match_segments-bad seg segs found count ok_seg inside (ground arith) in
              ground (arith, sym bad ∙ e)
          | inr short ↦
              let good =
                match_segments-good seg segs found count fits ok_seg inside (ground arith) in
              rw inside
                (omega (arith, match_segments-count segs _ (suc count) f c fits h (sym good ∙ e)))
        ]
        | inr out ↦ rw out (
            match_segments-count segs found count f c fits h
              (sym (match_segments-skip seg segs found count ok_seg out) ∙ e))
      ]

  match_segments-none :
      (loads : List LoadSegment) (found count : ℕ)
      → All (IsLoadable file_size) loads
      → covering vaddr loads ≡ []
      → match_segments file_size vaddr size loads found count ≡ ok (found, count)
  unfolding match_segments
  match_segments-none [] found count h e = refl
  match_segments-none (seg ∷ segs) found count (ok_seg, h) e =
      elim (Bool-cases (is_within vaddr seg)) [
        | inl inside ↦ ground arith
        | inr out ↦
            match_segments-skip seg segs found count ok_seg out
            ∙ match_segments-none segs found count h (ground arith)
      ]

  abbrev Fit : LoadSegment → Type 0
  Fit seg = size ≤ seg.vaddr + seg.filesz - vaddr

  -- One segment alone covers the address.
  match_segments-one :
      (loads : List LoadSegment) (found count : ℕ) (one : LoadSegment)
      → file_size < 2 ^ 64
      → All (IsLoadable file_size) loads
      → covering vaddr loads ≡ one ∷ []
      → (Fit one
          × (match_segments file_size vaddr size loads found count
              ≡ ok (one.off + (vaddr - one.vaddr), suc count)))
        ⊎ ((one.vaddr + one.filesz - vaddr < size)
            × (match_segments file_size vaddr size loads found count ≡ err metadata))
  match_segments-one [] found count one fits h e = cc
  match_segments-one (seg ∷ segs) found count one fits (ok_seg, h) e =
      elim (Bool-cases (is_within vaddr seg)) [
        | inl inside ↦
            let (same, nil) = ∷-parts (rw inside at e) in
            elim (Bool-cases (ltb (seg.vaddr + seg.filesz - vaddr) size)) [
              | inl long ↦ inr (
                rw (← same) (ground arith),
                match_segments-bad seg segs found count ok_seg inside (ground arith),
              )
              | inr short ↦ inl (
                rw (← same) (ground arith),
                rw (← same) (
                    match_segments-good seg segs found count fits ok_seg inside (ground arith)
                    ∙ match_segments-none segs _ (suc count) h nil),
              )
            ]
        | inr out ↦
            rw (match_segments-skip seg segs found count ok_seg out)
              (match_segments-one segs found count one fits h (ground arith))
      ]

single_match-ok : (r : ℕ × ℕ) (off : ℕ) → single_match r ≡ ok off → (r.0 ≡ off) × (r.1 ≡ 1)
unfolding single_match
single_match-ok (f, c) off e = ground arith

single_match-one : (f : ℕ) → single_match (f, 1) ≡ ok f
unfolding single_match
single_match-one f = refl

length-one : (segs : List LoadSegment) → length segs ≡ 1 → (one : LoadSegment) × (segs ≡ one ∷ [])
length-one [] e = absurd (omega arith)
length-one (one ∷ []) e = (one, refl)
length-one (a ∷ b ∷ segs) e = absurd (omega arith)

covering_sound :
    (file_size vaddr : ℕ) (loads : List LoadSegment)
    → All (IsLoadable file_size) loads
    → All (λ seg. IsLoadable file_size seg × (is_within vaddr seg ≡ true)) (covering vaddr loads)
covering_sound file_size vaddr [] h = tt
covering_sound file_size vaddr (seg ∷ segs) (ok_seg, h) = elim (Bool-cases (is_within vaddr seg)) [
  | inl inside ↦ rw inside ((ok_seg, inside), covering_sound file_size vaddr segs h)
  | inr out ↦ rw out (covering_sound file_size vaddr segs h)
]

-- For a file of less than 2 ^ 64 bytes and segments that lie in it, with addresses that do not wrap around:
-- the address is translated to an offset exactly where one segment alone covers it, its file-backed part
-- has the whole range, and the offset is the address's place in the file, with the range inside.
pub translate_vaddr_iff :
    (loads : List LoadSegment) (file_size vaddr size off : ℕ)
    → file_size < 2 ^ 64
    → All (IsLoadable file_size) loads
    → (translate_vaddr loads file_size vaddr size ≡ ok off) ↔ (
        (seg : LoadSegment) × (covering vaddr loads ≡ seg ∷ [])
        × (size ≤ seg.vaddr + seg.filesz - vaddr)
        × (off ≡ seg.off + (vaddr - seg.vaddr))
        × (off + size ≤ file_size))
unfolding translate_vaddr
translate_vaddr_iff loads file_size vaddr size off fits h = (
  λ e.
      let (checked, size_ok, matched) = >>=-eq-ok (reject_if (ltb file_size size) metadata) _ e in
      let ((f, c), counted, single) =
        >>=-eq-ok (match_segments file_size vaddr size loads 0 0) single_match matched in
      let (f_off, c_one) = single_match-ok (f, c) off single in
      let (one, only) =
        length-one (covering vaddr loads)
          (omega (arith, match_segments-count file_size vaddr size loads 0 0 f c fits h counted)) in
      let one_ok = rw only at (covering_sound file_size vaddr loads h) in
      elim (match_segments-one file_size vaddr size loads 0 0 one fits h only) [
        | inl (fit, same) ↦ (one, only, fit, ground arith, ground arith)
        | inr (long, bad) ↦ absurd (ground arith)
      ],
  λ (seg, only, fit, off_eq, inside).
      elim (match_segments-one file_size vaddr size loads 0 0 seg fits h only) [
        | inl (fit', same) ↦
            let small : ltb file_size size ≡ false = ground arith in
            let counted : single_match (seg.off + (vaddr - seg.vaddr), 1) ≡ ok off =
              single_match-one _ ∙ ap ok (sym off_eq) in
            rw (small, same) counted
        | inr (long, bad) ↦ absurd (omega arith)
      ],
)
