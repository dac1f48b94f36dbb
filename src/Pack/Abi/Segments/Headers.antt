-- ===== src/Pack/Abi/Segments/Headers.antt =====
-- Lemmas on `parseABIProgramHeaders`, and what a segment is that it collects.
use native.Mathlib.Nat.{mul-le-mul}
use microfat.Base.{
  ℕ, zero, suc, ◌+◌, ◌-◌, ◌*◌, ◌^◌, ◌≤◌, ◌<◌, ◌≡◌, ◌==◌, Option, none, some, [], ◌∷◌, All, length,
  length-drop, length-take, take, drop, arith, All-append,
}
use microfat.Text.{Bytes}
use microfat.Words.{mul64}
use microfat.Result.{ok}
use microfat.Format.Buffer.{slice}
use microfat.Format.Buffer.Reading.{slice-in_range}
use microfat.Format.Unmarshal.Typed.{All-take, All-drop}
use microfat.Pack.Abi.{AbiError}
use microfat.Pack.Abi.Reading.{ByteOrder, IsBuffer}
use microfat.Pack.Abi.Safe.{Safe, Safe-bind, Safe-pure, Safe-if}
use microfat.Pack.Abi.Headers.Safe.{Safe-guard, Safe-known, Safe-uint_at, mul64_small}
use microfat.Pack.Abi.Segments.{
  LoadSegment, ProgramTables, beyond_file, add_load, add_interp, add_dynamic, add_program,
  parse_program_header, parse_headers_from, parse_abi_program_headers,
}

abbrev pub InFile : ℕ → LoadSegment → Type 0
InFile file_size p = p.off + p.filesz ≤ file_size

-- A segment whose file-backed part lies in the file and whose addresses do not wrap around.
abbrev pub IsLoadable : ℕ → LoadSegment → Type 0
IsLoadable file_size p = InFile file_size p × (p.filesz ≤ p.memsz) × (p.vaddr + p.memsz < 2 ^ 64)

abbrev pub WhereSome : (LoadSegment → Type 0) → Option LoadSegment → Type 0
WhereSome P none = Unit
WhereSome P (some p) = P p

pub record Collected (file_size : ℕ) (t : ProgramTables) : Type 0 where
  pub loads_ok : All (IsLoadable file_size) t.loads
  pub interp_ok :
      WhereSome (λ p. InFile file_size p × (0 < p.filesz) × (p.filesz ≤ 4096)) t.interp_prog
  pub dynamic_ok : WhereSome (InFile file_size) t.dynamic_prog

module _ (file_size p_type : ℕ) (p : LoadSegment) (t : ProgramTables)
    (c : Collected file_size t) where
  add_load-Collected : p.vaddr < 2 ^ 64 → Safe (Collected file_size) (add_load file_size p t)
  unfolding add_load beyond_file
  add_load-Collected small = Safe-guard _ _ _ λ bounds. Safe-pure _ (record {
    loads_ok = All-append (IsLoadable file_size) t.loads (p ∷ []) c.loads_ok ((ground arith), tt);
    interp_ok = c.interp_ok;
    dynamic_ok = c.dynamic_ok;
  })

  add_interp-Collected : Safe (Collected file_size) (add_interp file_size p t)
  unfolding add_interp beyond_file
  add_interp-Collected = Safe-guard _ _ _ λ first. Safe-guard _ _ _ λ small.
      Safe-guard _ _ _ λ full. Safe-guard _ _ _ λ inside.
        Safe-pure _
          (record { loads_ok = c.loads_ok; interp_ok = ground arith; dynamic_ok = c.dynamic_ok })

  add_dynamic-Collected : Safe (Collected file_size) (add_dynamic file_size p t)
  unfolding add_dynamic beyond_file
  add_dynamic-Collected = Safe-guard _ _ _ λ inside.
      Safe-pure _
        (record { loads_ok = c.loads_ok; interp_ok = c.interp_ok; dynamic_ok = ground arith })

  add_program-Collected :
      p.vaddr < 2 ^ 64 → Safe (Collected file_size) (add_program file_size p_type p t)
  unfolding add_program
  add_program-Collected small =
      Safe-if (p_type == 1) _ _ (λ h. add_load-Collected small)
        λ h.
          Safe-if (p_type == 3) _ _ (λ k. add_interp-Collected)
            λ k. Safe-if (p_type == 2) _ _ (λ l. add_dynamic-Collected) λ l. Safe-pure t c

-- The table from an entry on.
slice-table :
    (table : Bytes) (size from : ℕ)
    → IsBuffer size table
    → from ≤ size
    → (ph : Bytes) × (slice {E = AbiError} table from (length table) ≡ ok ph)
      × IsBuffer (size - from) ph
slice-table table size from b h =
    let n : from ≤ length table = omega (arith, b.size_eq) in
    let inside : length table ≤ length table = omega arith in
    (
      take (length table - from) (drop from table),
      slice-in_range table from (length table) n inside,
      record {
        size_eq = omega (
          arith,
          length-take (length table - from) (drop from table),
          length-drop from table,
          b.size_eq,
        );
        bytes = All-take (length table - from) (drop from table) (All-drop from table b.bytes);
      },
    )

module _ (table : Bytes) (order : ByteOrder) (entsize file_size num : ℕ)
    (b : IsBuffer (entsize * num) table) (wide : 56 ≤ entsize) (narrow : entsize < 256 ^ 2)
    (few : num < 256 ^ 2) where
  parse_program_header-Collected :
      (i : ℕ) (t : ProgramTables)
      → i < num
      → Collected file_size t
      → Safe (Collected file_size) (parse_program_header table order entsize file_size i t)
  unfolding parse_program_header
  parse_program_header-Collected i t h c =
      let at_entry : mul64 i entsize + 56 ≤ entsize * num = omega (
        arith,
        mul64_small i entsize (omega arith) (omega arith),
        mul-le-mul {n₁ = suc i} {m₁ = entsize} {n₂ = num} {m₂ = entsize} (omega arith)
            (omega arith),
      ) in
      let (ph, e, buffer) = slice-table table (entsize * num) (mul64 i entsize) b (omega arith) in
      Safe-known _ ph _ e (
        Safe-uint_at order ph _ 0 4 _ buffer (omega arith) (omega arith) λ p_type e0 s0.
          Safe-uint_at order ph _ 8 16 _ buffer (omega arith) (omega arith) λ p_off e1 s1.
            Safe-uint_at order ph _ 16 24 _ buffer (omega arith) (omega arith) λ p_vaddr e2 s2.
              Safe-uint_at order ph _ 32 40 _ buffer (omega arith) (omega arith) λ p_filesz e3 s3.
                Safe-uint_at order ph _ 40 48 _ buffer (omega arith) (omega arith)
                  λ p_memsz e4 s4. add_program-Collected file_size p_type _ t c s2)

  parse_headers_from-Collected :
      (left i : ℕ) (t : ProgramTables)
      → i + left ≡ num
      → Collected file_size t
      → Safe (Collected file_size) (parse_headers_from table order entsize file_size left i t)
  unfolding parse_headers_from
  parse_headers_from-Collected zero i t h c = Safe-pure t c
  parse_headers_from-Collected (suc left) i t h c =
      Safe-bind _ _ (parse_program_header-Collected i t (omega arith) c)
        λ u d. parse_headers_from-Collected left (suc i) u (omega arith) d

  pub parse_abi_program_headers-Collected :
      Safe (Collected file_size) (parse_abi_program_headers table num entsize file_size order)
  unfolding parse_abi_program_headers
  parse_abi_program_headers-Collected =
      parse_headers_from-Collected num 0 _ (omega arith)
        (record { loads_ok = tt; interp_ok = tt; dynamic_ok = tt })
