-- ===== src/Pack/Abi/Segments.antt =====
-- internal/pack/abi.go: the loop over the program headers.
pub mod Headers
pub mod Translate
pub mod Exact
use microfat.Base.{
  ℕ, zero, suc, ◌+◌, ◌-◌, Bool, ◌&&◌, ◌||◌, Option, none, some, List, [], ◌∷◌, ◌++◌, ◌==◌, ltb, leb,
  length, if◌then◌else◌,
}
use microfat.Text.{Bytes}
use microfat.Words.{add64, mul64}
use microfat.Result.{Result, ok, err}
use microfat.Format.Buffer.{slice}
use microfat.Pack.Abi.{
  AbiError, Act, metadata, resource_limit, lift, pure, fail_if, ◌>>=◌, ◌>>◌, max_interpreter_size,
  max_uint64,
}
use microfat.Pack.Abi.Reading.{ByteOrder, uint_at}

pub record LoadSegment : Type 0 where
  pub off : ℕ
  pub vaddr : ℕ
  pub filesz : ℕ
  pub memsz : ℕ

-- What the loop over the program headers has collected.
pub record ProgramTables : Type 0 where
  pub loads : List LoadSegment
  pub interp_count : ℕ
  pub interp_prog : Option LoadSegment
  pub dynamic_prog : Option LoadSegment

unfoldable pub beyond_file : ℕ → LoadSegment → Bool
beyond_file file_size p = ltb file_size p.off || ltb (file_size - p.off) p.filesz

-- The cases of `switch elf.ProgType(pType)`.
unfoldable pub add_load : ℕ → LoadSegment → ProgramTables → Act ProgramTables
unfolding beyond_file
add_load file_size p t = do
  fail_if (ltb p.memsz p.filesz || beyond_file file_size p || ltb (max_uint64 - p.vaddr) p.memsz)
      metadata
  pure (record t { loads = t.loads ++ (p ∷ []) })

unfoldable pub add_interp : ℕ → LoadSegment → ProgramTables → Act ProgramTables
unfolding beyond_file
add_interp file_size p t = do
  fail_if (ltb 1 (suc t.interp_count)) metadata
  fail_if (ltb max_interpreter_size p.filesz) resource_limit
  fail_if (p.filesz == 0) metadata
  fail_if (beyond_file file_size p) metadata
  pure (record t { interp_count = suc t.interp_count; interp_prog = some p })

unfoldable pub add_dynamic : ℕ → LoadSegment → ProgramTables → Act ProgramTables
unfolding beyond_file
add_dynamic file_size p t = do
  fail_if (beyond_file file_size p) metadata
  pure (record t { dynamic_prog = some p })

unfoldable pub add_program : ℕ → ℕ → LoadSegment → ProgramTables → Act ProgramTables
add_program file_size p_type p t =
    if p_type == 1
    then add_load file_size p t
    else if p_type == 3
    then add_interp file_size p t
    else if p_type == 2
    then add_dynamic file_size p t
    else pure t

-- The body of the loop.
unfoldable pub parse_program_header :
    Bytes → ByteOrder → ℕ → ℕ → ℕ → ProgramTables → Act ProgramTables
parse_program_header ph_table order entsize file_size i t = do
  ph ← lift (slice ph_table (mul64 i entsize) (length ph_table))
  p_type ← lift (uint_at order ph 0 4)
  p_offset ← lift (uint_at order ph 8 16)
  p_vaddr ← lift (uint_at order ph 16 24)
  p_filesz ← lift (uint_at order ph 32 40)
  p_memsz ← lift (uint_at order ph 40 48)
  add_program file_size p_type
      (record { off = p_offset; vaddr = p_vaddr; filesz = p_filesz; memsz = p_memsz }) t

-- `left` headers from the one numbered `i` on.
unfoldable pub parse_headers_from :
    Bytes → ByteOrder → ℕ → ℕ → ℕ → ℕ → ProgramTables → Act ProgramTables
parse_headers_from ph_table order entsize file_size zero i t = pure t
parse_headers_from ph_table order entsize file_size (suc left) i t = do
  t' ← parse_program_header ph_table order entsize file_size i t
  parse_headers_from ph_table order entsize file_size left (suc i) t'

unfoldable pub parse_abi_program_headers : Bytes → ℕ → ℕ → ℕ → ByteOrder → Act ProgramTables
parse_abi_program_headers ph_table num entsize file_size order =
    parse_headers_from ph_table order entsize file_size num 0
      (record { loads = []; interp_count = 0; interp_prog = none; dynamic_prog = none })
