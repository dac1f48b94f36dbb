-- ===== src/Pack/Abi/Headers/Safe.antt =====
-- Lemmas on the checks of `PreflightELFHeadersReaderAt`.
use native.Mathlib.Nat.{mul-le-mul}
use microfat.Base.{
  ℕ, ◌+◌, ◌-◌, ◌*◌, ◌^◌, ◌≤◌, ◌<◌, ◌≡◌, refl, ◌⊎◌, inl, inr, Bool, false, ◌==◌, length, arith,
  get_elem?-in_range,
}
use microfat.Text.{Bytes}
use microfat.Words.{mul64}
use microfat.Result.{Result, ok}
use microfat.Format.Buffer.{index}
use microfat.Pack.Abi.{InputAccounting, AbiError, Act, invalid_elf, lift, fail_if, ◌>>=◌, ◌>>◌}
use microfat.Pack.Abi.Reading.{
  ReaderAt, FillsBuffer, ByteOrder, little_endian, big_endian, uint_at, read_into_at, IsBuffer,
  uint_at-in_range, read_into_at-Returns, read_into_at-IsBuffer,
}
use microfat.Pack.Abi.Safe.{
  Within, After, Safe, Safe-bind, Safe-pure, Safe-fail, Safe-fail_if, Safe-if, Safe-lift,
  Safe-weaken,
}
use microfat.Pack.Abi.Safe.Charges.{charge_metadata-Safe}
use microfat.Pack.Abi.Headers.{
  data_encoding, validate_elf_header_magic_and_encoding, check_program_header_table,
  validate_program_header_table, check_extended_section_table, check_section_zero,
  check_section_table, check_section_headers, validate_section_header_table, preflight_elf_headers,
}

index-in_range :
    (buf : Bytes) (size i : ℕ)
    → IsBuffer size buf
    → i < size
    → (b : ℕ) × (index {E = AbiError} buf i ≡ ok b)
unfolding index
index-in_range buf size i d h =
    let in_range : i < length buf = omega (arith, d.size_eq) in
    let (b, e) = get_elem?-in_range buf i in_range in (b, rw (index, e) refl)

pub Safe-known :
    {A B : Type 0} {P : B → Type 0} (m : Result AbiError A) (v : A) (rest : A → Act B)
    → m ≡ ok v
    → Safe P (rest v)
    → Safe P (lift m >>= rest)
unfolding ◌>>=◌ lift
Safe-known m v rest e h = rw e h

-- A field of a buffer in a call: it is read, and what follows knows it.
pub Safe-uint_at :
    {A : Type 0} {P : A → Type 0} (order : ByteOrder) (buf : Bytes) (size from to : ℕ)
    (rest : ℕ → Act A)
    → IsBuffer size buf
    → from ≤ to
    → to ≤ size
    → ((v : ℕ) → uint_at order buf from to ≡ ok v → v < 256 ^ (to - from) → Safe P (rest v))
    → Safe P (lift (uint_at order buf from to) >>= rest)
Safe-uint_at order buf size from to rest b h k f =
    let (v, e, small) = uint_at-in_range order buf size from to b h k in
    Safe-known _ v rest e (f v e small)

pub Safe-index :
    {A : Type 0} {P : A → Type 0} (buf : Bytes) (size i : ℕ) (rest : ℕ → Act A)
    → IsBuffer size buf
    → i < size
    → ((v : ℕ) → index {E = AbiError} buf i ≡ ok v → Safe P (rest v))
    → Safe P (lift (index buf i) >>= rest)
Safe-index buf size i rest b h f =
    let (v, e) = index-in_range buf size i b h in Safe-known _ v rest e (f v e)

pub Safe-read_into_at :
    {A : Type 0} {P : A → Type 0} (r : ReaderAt) (size off : ℕ) (rest : Bytes → Act A)
    → FillsBuffer r
    → ((bs : Bytes) → IsBuffer size bs → Safe P (rest bs))
    → Safe P (lift (read_into_at r size off) >>= rest)
Safe-read_into_at r size off rest fills k =
    Safe-bind {P = IsBuffer size} _ rest
      (Safe-lift _ (read_into_at-Returns r size off)
        (λ bs e. read_into_at-IsBuffer r size off bs fills e))
      k

module _ {A : Type 0} {P : A → Type 0} where
  -- A guard, and a call whose value does not matter.
  pub Safe-guard :
      (b : Bool) (e : AbiError) (rest : Act A)
      → (b ≡ false → Safe P rest)
      → Safe P (fail_if b e >> rest)
  Safe-guard b e rest k = Safe-bind _ _ (Safe-fail_if b e) (λ t h. k h)

  pub Safe-then :
      (m : Act Unit) (rest : Act A) → Safe (λ t. Unit) m → Safe P rest → Safe P (m >> rest)
  Safe-then m rest h k = Safe-bind _ _ h (λ t p. k)

-- The order that a header names.
abbrev pub Encodes : ByteOrder → ℕ → Type 0
Encodes little_endian d = d ≡ 1
Encodes big_endian d = d ≡ 2

data_encoding-Encodes : (d : ℕ) → Safe (λ order. Encodes order d) (data_encoding d)
unfolding data_encoding
data_encoding-Encodes d =
    Safe-if (d == 1) _ _ (λ h. Safe-pure little_endian (ground arith))
      λ h.
        Safe-if (d == 2) _ _ (λ k. Safe-pure big_endian (ground arith)) (λ k. Safe-fail invalid_elf)

abbrev pub HasEncoding : Bytes → ByteOrder → Type 0
HasEncoding header order = (d : ℕ) × (index {E = AbiError} header 5 ≡ ok d) × Encodes order d

pub validate_elf_header_magic_and_encoding-Encodes :
    (header : Bytes) (size : ℕ)
    → IsBuffer size header
    → Safe (HasEncoding header) (validate_elf_header_magic_and_encoding header)
unfolding validate_elf_header_magic_and_encoding
validate_elf_header_magic_and_encoding-Encodes header size b = Safe-guard _ _ _ λ long.
    let at_least : 64 ≤ size = ground (arith, b.size_eq) in
    Safe-index header size 0 _ b (omega arith) λ m0 e0.
      Safe-index header size 1 _ b (omega arith) λ m1 e1.
        Safe-index header size 2 _ b (omega arith) λ m2 e2.
          Safe-index header size 3 _ b (omega arith) λ m3 e3. Safe-guard _ _ _ λ magic.
            Safe-index header size 4 _ b (omega arith) λ class e4. Safe-guard _ _ _ λ class_ok.
              Safe-index header size 5 _ b (omega arith) λ encoding e5.
                Safe-bind _ _ (data_encoding-Encodes encoding) λ order encodes.
                  Safe-index header size 6 _ b (omega arith) λ version e6.
                    Safe-guard _ _ _ λ version_ok. Safe-pure order (encoding, e5, encodes)

-- A table of so many entries that lies in the file.
abbrev pub TableInFile : ℕ → ℕ → ℕ → ℕ → Type 0
TableInFile file_size off entsize num =
    (num ≡ 0) ⊎ ((56 ≤ entsize) × (off + entsize * num ≤ file_size))

pub mul64_small : (a b : ℕ) → a < 2 ^ 32 → b < 2 ^ 32 → mul64 a b ≡ a * b
mul64_small a b h k = omega (
  arith,
  mul-le-mul {n₁ = a} {m₁ = b} {n₂ = 4294967295} {m₂ = 4294967295} (omega arith) (omega arith),
)

validate_program_header_table-TableInFile :
    (file_size off entsize num : ℕ)
    → entsize < 256 ^ 2
    → num < 256 ^ 2
    → Safe
        (λ t. TableInFile file_size off entsize num)
        (validate_program_header_table file_size off entsize num)
unfolding validate_program_header_table check_program_header_table
validate_program_header_table-TableInFile file_size off entsize num h k = Safe-guard _ _ _ λ few.
    Safe-if (num == 0) _ _ (λ nil. Safe-pure tt (inl (ground arith)))
      λ any. Safe-guard _ _ _ λ a. Safe-guard _ _ _ λ b. Safe-guard _ _ _ λ c.
        Safe-weaken _ (charge_metadata-Safe _)
          λ t p. inr (ground arith, ground (arith, mul64_small entsize num))

check_section_zero-Safe :
    (r : ReaderAt) (order : ByteOrder) (file_size off entsize : ℕ)
    → FillsBuffer r
    → Safe (λ t. Unit) (check_section_zero r order file_size off entsize)
unfolding check_section_zero check_extended_section_table
check_section_zero-Safe r order file_size off entsize fills = Safe-guard _ _ _ λ a.
    Safe-read_into_at r 8 _ _ fills λ buf b.
      Safe-uint_at order buf 8 0 8 _ b (omega arith) (omega arith) λ num e small.
        Safe-guard _ _ _ λ few.
          Safe-if (num == 0) _ _ (λ nil. Safe-pure tt tt)
            λ any. Safe-guard _ _ _ λ c. charge_metadata-Safe _

validate_section_header_table-Safe :
    (r : ReaderAt) (order : ByteOrder) (file_size off entsize num : ℕ)
    → FillsBuffer r
    → Safe (λ t. Unit) (validate_section_header_table r order file_size off entsize num)
unfolding validate_section_header_table check_section_headers check_section_table
validate_section_header_table-Safe r order file_size off entsize num fills =
    Safe-if (off == 0) _ _ (λ nil. Safe-pure tt tt)
      λ any. Safe-guard _ _ _ λ a. Safe-guard _ _ _ λ b.
        Safe-if (num == 0) _ _ (λ c. check_section_zero-Safe r order file_size off entsize fills)
          λ c. Safe-guard _ _ _ λ d. charge_metadata-Safe _

-- What is known of a header that passed: its fields name a program header table that lies in the file.
pub record Passed (file_size : ℕ) (header : Bytes) : Type 0 where
  pub buffer : IsBuffer 64 header
  pub order : ByteOrder
  pub encoding : HasEncoding header order
  pub off : ℕ
  pub off_eq : uint_at order header 32 40 ≡ ok off
  pub entsize : ℕ
  pub entsize_eq : uint_at order header 54 56 ≡ ok entsize
  pub entsize_small : entsize < 256 ^ 2
  pub num : ℕ
  pub num_eq : uint_at order header 56 58 ≡ ok num
  pub num_small : num < 256 ^ 2
  pub table : TableInFile file_size off entsize num

pub preflight_elf_headers-Passed :
    (r : ReaderAt) (file_size : ℕ)
    → FillsBuffer r
    → Safe (Passed file_size) (preflight_elf_headers r file_size)
unfolding preflight_elf_headers
preflight_elf_headers-Passed r file_size fills = Safe-guard _ _ _ λ a.
    Safe-then _ _ (charge_metadata-Safe 64) (
      Safe-read_into_at r 64 0 _ fills λ header b.
        Safe-bind _ _ (validate_elf_header_magic_and_encoding-Encodes header 64 b) λ order encodes.
          Safe-uint_at order header 64 52 54 _ b (omega arith) (omega arith) λ ehsize e0 s0.
            Safe-guard _ _ _ λ c.
              Safe-uint_at order header 64 32 40 _ b (omega arith) (omega arith) λ off e1 s1.
                Safe-uint_at order header 64 54 56 _ b (omega arith) (omega arith) λ entsize e2 s2.
                  Safe-uint_at order header 64 56 58 _ b (omega arith) (omega arith) λ num e3 s3.
                    Safe-bind _ _
                      (validate_program_header_table-TableInFile file_size off entsize num s2 s3)
                      λ t table.
                        Safe-uint_at order header 64 40 48 _ b (omega arith) (omega arith)
                          λ shoff e4 s4.
                            Safe-uint_at order header 64 58 60 _ b (omega arith) (omega arith)
                              λ shentsize e5 s5.
                                Safe-uint_at order header 64 60 62 _ b (omega arith) (omega arith)
                                  λ shnum e6 s6.
                                    Safe-then _ _
                                      (validate_section_header_table-Safe r order file_size shoff
                                        shentsize shnum fills)
                                      (Safe-pure header (record {
                                        buffer = b;
                                        order = order;
                                        encoding = encodes;
                                        off = off;
                                        off_eq = e1;
                                        entsize = entsize;
                                        entsize_eq = e2;
                                        entsize_small = s2;
                                        num_small = s3;
                                        num = num;
                                        num_eq = e3;
                                        table = table;
                                      })))

-- The checks on the headers keep the budgets and return. A header that passes them has 64 bytes and
-- names a known byte order, and its program headers are wide enough and lie in the file.
pub preflight_elf_headers-After :
    (r : ReaderAt) (file_size : ℕ) (s : InputAccounting)
    → FillsBuffer r
    → Within s
    → After s (Passed file_size) (preflight_elf_headers r file_size s)
preflight_elf_headers-After r file_size s fills w =
    (preflight_elf_headers-Passed r file_size fills).of s w
