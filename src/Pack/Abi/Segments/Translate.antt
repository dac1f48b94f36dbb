-- ===== src/Pack/Abi/Segments/Translate.antt =====
-- internal/pack/abi.go: `translateVaddr`, from a virtual address to an offset in the file.
use microfat.Base.{ℕ, suc, ◌-◌, Bool, ◌&&◌, ◌||◌, List, [], ◌∷◌, ◌==◌, ltb, leb, if◌then◌else◌}
use microfat.Words.{add64}
use microfat.Result.{Result, ok, err, reject_if, ◌>>=◌, ◌>>◌}
use microfat.Pack.Abi.{AbiError, metadata}
use microfat.Pack.Abi.Segments.{LoadSegment}

-- The tests on a segment, and where the address lies in the file.
unfoldable pub covers : ℕ → LoadSegment → Bool
covers vaddr seg = leb seg.vaddr vaddr && ltb vaddr (add64 seg.vaddr seg.filesz)

unfoldable pub file_off : ℕ → LoadSegment → ℕ
file_off vaddr seg = add64 seg.off (vaddr - seg.vaddr)

unfoldable pub bad_range : ℕ → ℕ → ℕ → LoadSegment → Bool
unfolding file_off
bad_range file_size vaddr size seg =
    ltb (seg.filesz - (vaddr - seg.vaddr)) size
    || ltb file_size (file_off vaddr seg)
    || ltb (file_size - file_off vaddr seg) size

-- The loop: the offset found last and the number of matches.
unfoldable pub match_segments : ℕ → ℕ → ℕ → List LoadSegment → ℕ → ℕ → Result AbiError (ℕ × ℕ)
match_segments file_size vaddr size [] found count = ok (found, count)
match_segments file_size vaddr size (seg ∷ segs) found count =
    let skip = match_segments file_size vaddr size segs found count in
    let next = match_segments file_size vaddr size segs (file_off vaddr seg) (suc count) in
    if seg.filesz == 0
    then skip
    else if covers vaddr seg
    then (if bad_range file_size vaddr size seg then err metadata else next)
    else skip

unfoldable pub single_match : ℕ × ℕ → Result AbiError ℕ
single_match (found, count) =
    if count == 0 then err metadata else if ltb 1 count then err metadata else ok found

unfoldable pub translate_vaddr : List LoadSegment → ℕ → ℕ → ℕ → Result AbiError ℕ
translate_vaddr loads file_size vaddr size = do
  reject_if (ltb file_size size) metadata
  match_segments file_size vaddr size loads 0 0 >>= single_match
