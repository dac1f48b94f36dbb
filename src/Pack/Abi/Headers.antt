-- ===== src/Pack/Abi/Headers.antt =====
-- internal/pack/abi.go: `PreflightELFHeadersReaderAt` and what it calls: the checks on the ELF header
-- and on its two tables. The pointer to the accounting is never nil here.
pub mod Safe
use microfat.Base.{ℕ, ◌+◌, ◌-◌, Bool, true, not, ◌&&◌, ◌||◌, ◌==◌, ltb, length, if◌then◌else◌}
use microfat.Text.{Bytes}
use microfat.Words.{mul64}
use microfat.Format.Buffer.{index}
use microfat.Pack.Abi.{
  Act, metadata, resource_limit, invalid_elf, lift, pure, fail, fail_if, ◌>>=◌, ◌>>◌,
  max_program_headers, max_section_headers,
}
use microfat.Pack.Abi.Accounting.{charge_metadata}
use microfat.Pack.Abi.Reading.{
  ReaderAt, ByteOrder, little_endian, big_endian, uint_at, read_into_at,
}

abbrev pub min_elf_header_size : ℕ
min_elf_header_size = 64

abbrev pub min_program_header_size : ℕ
min_program_header_size = 56

abbrev pub min_section_header_size : ℕ
min_section_header_size = 64

-- `switch header[5]`
unfoldable pub data_encoding : ℕ → Act ByteOrder
data_encoding d =
    if d == 1 then pure little_endian else if d == 2 then pure big_endian else fail invalid_elf

unfoldable pub validate_elf_header_magic_and_encoding : Bytes → Act ByteOrder
validate_elf_header_magic_and_encoding header = do
  fail_if (ltb (length header) min_elf_header_size) metadata
  m0 ← lift (index header 0)
  m1 ← lift (index header 1)
  m2 ← lift (index header 2)
  m3 ← lift (index header 3)
  fail_if (not (m0 == 127) || not (m1 == b'E') || not (m2 == b'L') || not (m3 == b'F')) invalid_elf
  class ← lift (index header 4)
  fail_if (not (class == 2)) invalid_elf
  encoding ← lift (index header 5)
  order ← data_encoding encoding
  version ← lift (index header 6)
  fail_if (not (version == 1)) invalid_elf
  pure order

unfoldable pub check_program_header_table : ℕ → ℕ → ℕ → ℕ → Act Unit
check_program_header_table file_size e_phoff e_phentsize e_phnum = do
  fail_if (ltb e_phentsize min_program_header_size) metadata
  fail_if (ltb file_size e_phoff) metadata
  fail_if (ltb (file_size - e_phoff) (mul64 e_phentsize e_phnum)) metadata
  charge_metadata (mul64 e_phentsize e_phnum)

unfoldable pub validate_program_header_table : ℕ → ℕ → ℕ → ℕ → Act Unit
validate_program_header_table file_size e_phoff e_phentsize e_phnum = do
  fail_if (ltb max_program_headers e_phnum) resource_limit
  if e_phnum == 0 then pure tt else check_program_header_table file_size e_phoff e_phentsize e_phnum

-- The header of section 0 holds the number of sections, where the ELF header has no room for it.
unfoldable pub check_extended_section_table : ℕ → ℕ → ℕ → ℕ → Act Unit
check_extended_section_table file_size e_shoff e_shentsize real_shnum = do
  fail_if (ltb max_section_headers real_shnum) resource_limit
  if real_shnum == 0
      then pure tt
      else (fail_if (ltb (file_size - e_shoff) (mul64 real_shnum e_shentsize)) metadata
          >> charge_metadata (mul64 real_shnum e_shentsize))

unfoldable pub check_section_zero : ReaderAt → ByteOrder → ℕ → ℕ → ℕ → Act Unit
check_section_zero r order file_size e_shoff e_shentsize = do
  fail_if (ltb (file_size - e_shoff) e_shentsize) metadata
  sh_size_buf ← lift (read_into_at r 8 (e_shoff + 32))
  real_shnum ← lift (uint_at order sh_size_buf 0 8)
  check_extended_section_table file_size e_shoff e_shentsize real_shnum

unfoldable pub check_section_table : ℕ → ℕ → ℕ → ℕ → Act Unit
check_section_table file_size e_shoff e_shentsize e_shnum = do
  fail_if (ltb (file_size - e_shoff) (mul64 e_shnum e_shentsize)) metadata
  charge_metadata (mul64 e_shnum e_shentsize)

unfoldable pub check_section_headers : ReaderAt → ByteOrder → ℕ → ℕ → ℕ → ℕ → Act Unit
check_section_headers r order file_size e_shoff e_shentsize e_shnum = do
  fail_if (ltb e_shentsize min_section_header_size) metadata
  fail_if (ltb file_size e_shoff) metadata
  if e_shnum == 0
      then check_section_zero r order file_size e_shoff e_shentsize
      else check_section_table file_size e_shoff e_shentsize e_shnum

unfoldable pub validate_section_header_table : ReaderAt → ByteOrder → ℕ → ℕ → ℕ → ℕ → Act Unit
validate_section_header_table r order file_size e_shoff e_shentsize e_shnum =
    if e_shoff == 0
    then pure tt
    else check_section_headers r order file_size e_shoff e_shentsize e_shnum

-- It returns the header that it read.
unfoldable pub preflight_elf_headers : ReaderAt → ℕ → Act Bytes
preflight_elf_headers r file_size = do
  fail_if (ltb file_size min_elf_header_size) metadata
  charge_metadata min_elf_header_size
  header ← lift (read_into_at r min_elf_header_size 0)
  order ← validate_elf_header_magic_and_encoding header
  e_ehsize ← lift (uint_at order header 52 54)
  fail_if (ltb e_ehsize min_elf_header_size || ltb file_size e_ehsize) metadata
  e_phoff ← lift (uint_at order header 32 40)
  e_phentsize ← lift (uint_at order header 54 56)
  e_phnum ← lift (uint_at order header 56 58)
  validate_program_header_table file_size e_phoff e_phentsize e_phnum
  e_shoff ← lift (uint_at order header 40 48)
  e_shentsize ← lift (uint_at order header 58 60)
  e_shnum ← lift (uint_at order header 60 62)
  validate_section_header_table r order file_size e_shoff e_shentsize e_shnum
  pure header
