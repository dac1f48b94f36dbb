-- ===== src/Pack/Abi/Versions/Offsets.antt =====
-- `advanceELFRelativeOffset`, compared with the sum of signed numbers.
use microfat.Base.{ℕ, ◌+◌, ◌^◌, ◌≤◌, ◌<◌, ◌≡◌, ◌↔◌, ltb, arith, if◌then◌else◌}
use microfat.Result.{ok}
use microfat.Pack.Abi.{InputAccounting, fail_if, lift, ◌>>=◌}
use microfat.Pack.Abi.Versions.{is_forward, advance_elf_relative_offset}

-- `new` lies the signed distance `rel` from `curr`: from 2 ^ 31 on it counts back from 2 ^ 32.
abbrev pub IsStep : ℕ → ℕ → ℕ → Type 0
IsStep curr rel new = new + (if ltb rel (2 ^ 31) then 0 else 2 ^ 32) ≡ curr + rel

-- For an offset below 2 ^ 64 - 2 ^ 33, a distance of 32 bits and a size below 2 ^ 32: the step succeeds with
-- an offset exactly where the distance is not 0, leads there as a signed number, and the record there lies
-- in the area.
pub advance_elf_relative_offset_iff :
    (curr rel min_off max_off size new : ℕ) (s : InputAccounting)
    → curr + 2 ^ 33 < 2 ^ 64
    → rel < 2 ^ 32
    → size < 2 ^ 32
    → (advance_elf_relative_offset curr rel min_off max_off size s ≡ (ok new, s))
      ↔ ((0 < rel) × IsStep curr rel new × (min_off ≤ new) × (new + size ≤ max_off))
unfolding advance_elf_relative_offset is_forward fail_if lift ◌>>=◌
advance_elf_relative_offset_iff curr rel min_off max_off size new s h k l = ground arith
