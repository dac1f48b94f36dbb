-- ===== src/Pack/Elf/Loadable.antt =====
-- Where a loadable segment of an executable is, and that it has the entry point.
use Prim.Native.Nat.{bit_and}
use native.Mathlib.Decide.{dec_lt}
use microfat.Base.{
  ℕ, ◌+◌, ◌-◌, ◌%◌, ◌^◌, ◌≤◌, ◌<◌, ◌≡◌, ◌≢◌, ◌↔◌, ◌⊎◌, true, false, List, [], ◌∷◌, arith,
}
use microfat.Pack.Elf.{Prog, pt_load, pf_x, bad_bounds, bad_alignment, loads_entry}

abbrev pub IsUint64 : ℕ → Type 0
IsUint64 n = n < 2 ^ 64

-- The numbers of a program header are `uint64`.
abbrev pub ProgIsTyped : Prog → Type 0
ProgIsTyped p =
    IsUint64 p.off × IsUint64 p.vaddr × IsUint64 p.filesz × IsUint64 p.memsz × IsUint64 p.align

-- A segment is within the file, and it and its memory are within the address space; its alignment is 0, 1 or a
-- number that has no bit in common with its predecessor, and keeps address and offset together.
pub record IsWellPlaced (size : ℕ) (p : Prog) : Type 0 where
  pub in_memory : p.filesz ≤ p.memsz
  pub in_file : p.off + p.filesz ≤ size
  pub in_space : p.vaddr + p.memsz < 2 ^ 64
  pub aligned :
      1 < p.align → (bit_and p.align (p.align - 1) ≡ 0) × (p.vaddr % p.align ≡ p.off % p.align)

-- The entry point is in the bytes that an executable segment has from the file.
pub record HasEntry (entry : ℕ) (p : Prog) : Type 0 where
  pub loadable : p.prog_type ≡ pt_load
  pub executable : bit_and p.flags pf_x ≢ 0
  pub above : p.vaddr ≤ entry
  pub below : entry < p.vaddr + p.filesz

abbrev pub SomeHasEntry : ℕ → List Prog → Type 0
SomeHasEntry entry [] = ⊥
SomeHasEntry entry (p ∷ ps) = HasEntry entry p ⊎ SomeHasEntry entry ps

pub bad_bounds_iff :
    (size : ℕ) (p : Prog)
    → IsUint64 size
    → ProgIsTyped p
    → (bad_bounds size p ≡ false)
      ↔ ((p.filesz ≤ p.memsz) × (p.off + p.filesz ≤ size) × (p.vaddr + p.memsz < 2 ^ 64))
unfolding bad_bounds
bad_bounds_iff size p s (a, b, c, d, f) = (
  λ e. (ground (arith, e), ground (arith, e), ground (arith, e)),
  λ (x, y, z). ground (arith, x, y, z),
)

pub bad_alignment_iff :
    (p : Prog)
    → (bad_alignment p ≡ false)
      ↔ (1 < p.align → (bit_and p.align (p.align - 1) ≡ 0) × (p.vaddr % p.align ≡ p.off % p.align))
unfolding bad_alignment
bad_alignment_iff p = (
  λ e h. (ground (arith, e, h), ground (arith, e, h)),
  λ h. elim (dec_lt 1 p.align) [
    | yes above ↦ let (a, b) = h above in ground (arith, a, b)
    | no low ↦ ground (arith, low)
  ],
)

pub loads_entry_iff :
    (entry : ℕ) (p : Prog)
    → IsUint64 entry
    → ProgIsTyped p
    → (loads_entry entry p ≡ true)
      ↔ ((bit_and p.flags pf_x ≢ 0) × (p.vaddr ≤ entry) × (entry < p.vaddr + p.filesz))
unfolding loads_entry
loads_entry_iff entry p i (a, b, c, d, f) = (
  λ e. (λ z. ground (arith, e, z), ground (arith, e), ground (arith, e)),
  λ (x, y, z). ground (arith, x, y, z),
)
