-- ===== src/Cgroup/Proc/Lines.antt =====
-- The lines of a membership file.
use microfat.Base.{
  ℕ, zero, suc, ◌≤◌, ◌≡◌, ◌≢◌, refl, ap, ◌∙◌, true, some, List, [], ◌∷◌, ◌++◌, arith, All, length,
  length-append, take-append, drop,
}
use microfat.Text.{index_byte, Bytes}
use microfat.Cgroup.Proc.{scan_proc_cgroup_line, scan_lines, lines_of}

abbrev pub IsLine : Bytes → Type 0
IsLine = All (λ c. c ≢ b'\n')

-- The lines, each with a newline behind it.
abbrev pub unlines : List Bytes → Bytes
unlines [] = []
unlines (line ∷ lines) = line ++ (b'\n' ∷ unlines lines)

index_byte-line :
    (line rest : Bytes)
    → IsLine line
    → index_byte (line ++ (b'\n' ∷ rest)) b'\n' ≡ some (length line)
unfolding index_byte
index_byte-line [] rest h = refl
index_byte-line (c ∷ line) rest (ne, h) = rw (index_byte-line line rest h) (ground (arith, ne))

drop-line : (line rest : Bytes) → drop (suc (length line)) (line ++ (b'\n' ∷ rest)) ≡ rest
drop-line [] rest = refl
drop-line (c ∷ line) rest = drop-line line rest

scan-line :
    (line rest : Bytes)
    → IsLine line
    → scan_proc_cgroup_line (line ++ (b'\n' ∷ rest)) true ≡ (suc (length line), some line)
unfolding scan_proc_cgroup_line
scan-line line rest h =
    rw (scan_proc_cgroup_line, index_byte-line line rest h)
      (ap (λ t. (suc (length line), some t)) (take-append line (b'\n' ∷ rest)))

scan_lines-step :
    (fuel : ℕ) (line rest : Bytes)
    → IsLine line
    → scan_lines (suc fuel) (line ++ (b'\n' ∷ rest)) ≡ line ∷ scan_lines fuel rest
unfolding scan_lines
scan_lines-step fuel line rest h =
    let e = scan-line line rest h in rw (scan_lines, e, e, drop-line line rest) refl

scan_lines-unlines :
    (fuel : ℕ) (lines : List Bytes)
    → length (unlines lines) ≤ fuel
    → All IsLine lines
    → scan_lines fuel (unlines lines) ≡ lines
unfolding scan_lines scan_proc_cgroup_line index_byte
scan_lines-unlines zero [] h k = refl
scan_lines-unlines (suc fuel) [] h k = refl
scan_lines-unlines zero (line ∷ lines) h k =
    absurd (omega (arith, h, length-append line (b'\n' ∷ unlines lines)))
scan_lines-unlines (suc fuel) (line ∷ lines) h (l, ls) =
    let short : length (unlines lines) ≤ fuel =
      omega (arith, h, length-append line (b'\n' ∷ unlines lines)) in
    scan_lines-step fuel line (unlines lines) l
    ∙ ap (λ r. line ∷ r) (scan_lines-unlines fuel lines short ls)

-- Lines that are written with a newline behind each are read back as they are, a carriage return at the end of a line
-- included.
pub lines_of-unlines : (lines : List Bytes) → All IsLine lines → lines_of (unlines lines) ≡ lines
lines_of-unlines lines h = scan_lines-unlines (length (unlines lines)) lines (omega arith) h
