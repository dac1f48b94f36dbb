-- ===== src/Pack/Elf.antt =====
-- `validateExecutableELF` of internal/pack/elf.go, on the headers that were read. The numbers are `uint64`.
pub mod Loadable
pub mod Complete
use Prim.Native.Nat.{bit_and}
use microfat.Base.{
  ℕ, ◌+◌, ◌-◌, ◌%◌, ◌^◌, Bool, true, false, not, ◌&&◌, ◌||◌, List, [], ◌∷◌, ◌==◌, ltb, leb,
  if◌then◌else◌,
}
use microfat.Result.{Result, ok, err, ◌>>=◌, ◌>>◌, reject_if}

pub data ElfError : Type 0 where
  not_executable no_entry_point invalid_bounds invalid_alignment entry_not_loaded : ElfError

-- What the code reads of `elf.Prog` and of `elf.File`.
pub record Prog : Type 0 where
  pub prog_type : ℕ
  pub flags : ℕ
  pub off : ℕ
  pub vaddr : ℕ
  pub filesz : ℕ
  pub memsz : ℕ
  pub align : ℕ

pub record ElfFile : Type 0 where
  pub file_type : ℕ
  pub entry : ℕ
  pub progs : List Prog

-- `elf.ET_EXEC`, `elf.ET_DYN`, `elf.PT_LOAD` and `elf.PF_X`.
abbrev pub et_exec : ℕ
et_exec = 2

abbrev pub et_dyn : ℕ
et_dyn = 3

abbrev pub pt_load : ℕ
pt_load = 1

abbrev pub pf_x : ℕ
pf_x = 1

abbrev pub sub_uint64 : ℕ → ℕ → ℕ
sub_uint64 a b = (a + 2 ^ 64 - b) % 2 ^ 64

unfoldable pub bad_bounds : ℕ → Prog → Bool
bad_bounds size p =
    ltb p.memsz p.filesz
    || ltb size p.off
    || ltb (sub_uint64 size p.off) p.filesz
    || ltb (sub_uint64 (2 ^ 64 - 1) p.vaddr) p.memsz

-- A remainder is taken only where the alignment is above 1.
unfoldable pub bad_alignment : Prog → Bool
bad_alignment p =
    ltb 1 p.align
    && (not (bit_and p.align (p.align - 1) == 0) || not (p.vaddr % p.align == p.off % p.align))

unfoldable pub loads_entry : ℕ → Prog → Bool
loads_entry entry p =
    not (bit_and p.flags pf_x == 0) && leb p.vaddr entry && ltb (sub_uint64 entry p.vaddr) p.filesz

-- The loop over the program headers.
unfoldable pub check_progs : ℕ → ℕ → Bool → List Prog → Result ElfError Bool
check_progs size entry entry_loaded [] = ok entry_loaded
check_progs size entry entry_loaded (p ∷ ps) =
    let skip = check_progs size entry entry_loaded ps in
    let next = check_progs size entry (entry_loaded || loads_entry entry p) ps in
    if not (p.prog_type == pt_load)
    then skip
    else if bad_bounds size p
    then err invalid_bounds
    else if bad_alignment p
    then err invalid_alignment
    else next

unfoldable pub validate_executable_elf : ElfFile → ℕ → Result ElfError Unit
validate_executable_elf f size = do
  reject_if (not (f.file_type == et_exec) && not (f.file_type == et_dyn)) not_executable
  reject_if (f.entry == 0) no_entry_point
  entry_loaded ← check_progs size f.entry false f.progs
  reject_if (not entry_loaded) entry_not_loaded
