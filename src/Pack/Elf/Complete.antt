-- ===== src/Pack/Elf/Complete.antt =====
-- The validation accepts exactly the executables whose loadable segments are within the file and the address
-- space and one of which has the entry point.
use microfat.Base.{
  ℕ, ◌≡◌, ◌≢◌, ◌↔◌, ◌⊎◌, inl, inr, refl, ap, Bool, true, false, not, ◌&&◌, ◌||◌, List, [], ◌∷◌,
  ◌==◌, arith, All, Bool-cases,
}
use microfat.Result.{ok, reject_if, >>=-eq-ok}
use microfat.Pack.Elf.{
  ElfError, not_executable, no_entry_point, entry_not_loaded, Prog, ElfFile, et_exec, et_dyn,
  pt_load, bad_bounds, bad_alignment, loads_entry, check_progs, validate_executable_elf,
}
use microfat.Pack.Elf.Loadable.{
  IsUint64, ProgIsTyped, IsWellPlaced, SomeHasEntry, bad_bounds_iff, bad_alignment_iff,
  loads_entry_iff,
}

abbrev Placed : ℕ → Prog → Type 0
Placed size p = p.prog_type ≡ pt_load → IsWellPlaced size p

module _ (size entry : ℕ) (s : IsUint64 size) (i : IsUint64 entry) where
  -- One loadable segment.
  placed_iff :
      (p : Prog)
      → ProgIsTyped p
      → ((bad_bounds size p || bad_alignment p) ≡ false) ↔ IsWellPlaced size p
  placed_iff p t =
      let bounds = bad_bounds_iff size p s t in
      let alignment = bad_alignment_iff p in
      (
        λ e.
            let (a, b, c) = bounds.0 (ground (arith, e)) in
            record {
              in_memory = a;
              in_file = b;
              in_space = c;
              aligned = alignment.0 (ground (arith, e));
            },
        λ w.
            let x = bounds.1 (w.in_memory, w.in_file, w.in_space) in
            let y = alignment.1 w.aligned in rw (x, y) refl,
      )

  -- The loop with a well-placed segment, and with a segment that is not.
  check-placed :
      (b : Bool) (p : Prog) (ps : List Prog)
      → p.prog_type ≡ pt_load
      → (bad_bounds size p || bad_alignment p) ≡ false
      → check_progs size entry b (p ∷ ps) ≡ check_progs size entry (b || loads_entry entry p) ps
  unfolding check_progs
  check-placed b p ps l e = ground (arith, l, e)

  check-misplaced :
      (b : Bool) (p : Prog) (ps : List Prog)
      → p.prog_type ≡ pt_load
      → (bad_bounds size p || bad_alignment p) ≡ true
      → check_progs size entry b (p ∷ ps) ≢ ok true
  unfolding check_progs
  check-misplaced b p ps l e k = ground (arith, l, e, k)

  check-skip :
      (b : Bool) (p : Prog) (ps : List Prog)
      → p.prog_type ≢ pt_load
      → check_progs size entry b (p ∷ ps) ≡ check_progs size entry b ps
  unfolding check_progs
  check-skip b p ps l = ground (arith, l)

  loaded : (b : Bool) → check_progs size entry b [] ≡ ok true → b ≡ true
  unfolding check_progs
  loaded b e = ground (arith, e)

  nothing : (b : Bool) → (b ≡ true) ⊎ SomeHasEntry entry [] → check_progs size entry b [] ≡ ok true
  unfolding check_progs
  nothing b (inl e) = ap ok e
  nothing b (inr k) = absurd k

  later :
      (b : Bool) (p : Prog) (ps : List Prog)
      → (b ≡ true) ⊎ SomeHasEntry entry ps
      → (b ≡ true) ⊎ SomeHasEntry entry (p ∷ ps)
  later b p ps (inl e) = inl e
  later b p ps (inr k) = inr (inr k)

  not_here :
      (b : Bool) (p : Prog) (ps : List Prog)
      → p.prog_type ≢ pt_load
      → (b ≡ true) ⊎ SomeHasEntry entry (p ∷ ps)
      → (b ≡ true) ⊎ SomeHasEntry entry ps
  not_here b p ps other (inl e) = inl e
  not_here b p ps other (inr (inl k)) = absurd (other k.loadable)
  not_here b p ps other (inr (inr k)) = inr k

  -- The flag of the loop, after a loadable segment.
  found :
      (b : Bool) (p : Prog) (ps : List Prog)
      → p.prog_type ≡ pt_load
      → ProgIsTyped p
      → ((b || loads_entry entry p) ≡ true) ⊎ SomeHasEntry entry ps
      → (b ≡ true) ⊎ SomeHasEntry entry (p ∷ ps)
  found b p ps load t (inr k) = inr (inr k)
  found true p ps load t (inl e) = inl refl
  found false p ps load t (inl e) =
      let (x, y, z) = (loads_entry_iff entry p i t).0 e in
      inr (inl (record { loadable = load; executable = x; above = y; below = z }))

  kept :
      (b : Bool) (p : Prog) (ps : List Prog)
      → p.prog_type ≡ pt_load
      → ProgIsTyped p
      → (b ≡ true) ⊎ SomeHasEntry entry (p ∷ ps)
      → ((b || loads_entry entry p) ≡ true) ⊎ SomeHasEntry entry ps
  kept b p ps load t (inl e) = inl (rw e refl)
  kept b p ps load t (inr (inr k)) = inr k
  kept b p ps load t (inr (inl k)) =
      let e = (loads_entry_iff entry p i t).1 (k.executable, k.above, k.below) in
      inl (ground (arith, e))

  check_progs_iff :
      (b : Bool) (ps : List Prog)
      → All ProgIsTyped ps
      → (check_progs size entry b ps ≡ ok true)
        ↔ (All (Placed size) ps × ((b ≡ true) ⊎ SomeHasEntry entry ps))
  check_progs_iff b [] h = (λ e. (tt, inl (loaded b e)), λ (x, y). nothing b y)
  check_progs_iff b (p ∷ ps) (t, h) = elim (Bool-cases (p.prog_type == pt_load)) [
    | inr no_load ↦
        let other : p.prog_type ≢ pt_load = λ l. ground (arith, l, no_load) in
        let rest = check_progs_iff b ps h in
        rw (check-skip b p ps other) (
          λ e. let (x, y) = rest.0 e in ((λ l. absurd (other l), x), later b p ps y),
          λ ((w, x), y). rest.1 (x, not_here b p ps other y),
        )
    | inl is_load ↦
        let load : p.prog_type ≡ pt_load = ground (arith, is_load) in
        elim (Bool-cases (bad_bounds size p || bad_alignment p)) [
          | inl bad ↦ (
            λ e. absurd (check-misplaced b p ps load bad e),
            λ ((w, x), y). cc ((placed_iff p t).1 (w load), bad),
          )
          | inr good ↦
              let rest = check_progs_iff (b || loads_entry entry p) ps h in
              rw (check-placed b p ps load good) (
                λ e.
                    let (x, y) = rest.0 e in
                    ((λ l. (placed_iff p t).0 good, x), found b p ps load t y),
                λ ((w, x), y). rest.1 (x, kept b p ps load t y),
              )
        ]
  ]

-- An executable as the validation accepts it: of one of two types, with an entry point, with its loadable segments
-- well placed, and with the entry point in one of them.
pub record IsExecutable (f : ElfFile) (size : ℕ) : Type 0 where
  pub type : (f.file_type ≡ et_exec) ⊎ (f.file_type ≡ et_dyn)
  pub entry : f.entry ≢ 0
  pub placed : All (Placed size) f.progs
  pub loaded : SomeHasEntry f.entry f.progs

accepted : (b : Bool) (e : ElfError) → reject_if b e ≡ ok tt → b ≡ false
accepted true e k = cc k
accepted false e k = refl

accepted_not : (b : Bool) (e : ElfError) → reject_if (not b) e ≡ ok tt → b ≡ true
accepted_not true e k = refl
accepted_not false e k = cc k

type_of : (t : ℕ) → (not (t == et_exec) && not (t == et_dyn)) ≡ false → (t ≡ et_exec) ⊎ (t ≡ et_dyn)
type_of t e = ground (arith, e)

type_test :
    (t : ℕ) → (t ≡ et_exec) ⊎ (t ≡ et_dyn) → (not (t == et_exec) && not (t == et_dyn)) ≡ false
type_test t e = ground (arith, e)

entry_test : (n : ℕ) → n ≢ 0 → (n == 0) ≡ false
entry_test n h = ground (arith, h)

from_start :
    (entry : ℕ) (ps : List Prog) → (false ≡ true) ⊎ SomeHasEntry entry ps → SomeHasEntry entry ps
from_start entry ps (inl e) = cc e
from_start entry ps (inr k) = k

-- On headers with numbers of their types, the validation accepts exactly the files that are executables in this sense.
pub validate_executable_elf_iff :
    (f : ElfFile) (size : ℕ)
    → IsUint64 size
    → IsUint64 f.entry
    → All ProgIsTyped f.progs
    → (validate_executable_elf f size ≡ ok tt) ↔ IsExecutable f size
unfolding validate_executable_elf
validate_executable_elf_iff f size s i h =
    let both = check_progs_iff size f.entry s i false f.progs h in
    (
      λ e.
          let (_, typed, rest) =
            >>=-eq-ok
              (reject_if (not (f.file_type == et_exec) && not (f.file_type == et_dyn))
                not_executable)
              _ e in
          let (_, entered, rest) = >>=-eq-ok (reject_if (f.entry == 0) no_entry_point) _ rest in
          let (flag, checked, last) = >>=-eq-ok (check_progs size f.entry false f.progs) _ rest in
          let set : flag ≡ true = accepted_not flag entry_not_loaded last in
          let (placed, some_entry) = both.0 (rw set at checked) in
          record {
            type = type_of f.file_type (accepted _ not_executable typed);
            entry = λ z. ground (arith, z, accepted (f.entry == 0) no_entry_point entered);
            placed = placed;
            loaded = from_start f.entry f.progs some_entry;
          },
      λ x.
          let a : (not (f.file_type == et_exec) && not (f.file_type == et_dyn)) ≡ false =
            type_test f.file_type x.type in
          let b : (f.entry == 0) ≡ false = entry_test f.entry x.entry in
          rw (a, b, both.1 (x.placed, inr x.loaded)) refl,
    )
