-- ===== src/Tests/Sample.antt =====
-- Concrete parameters of the model of internal/cgroup: numbers in hundredths, and a file system of three files.
use microfat.Base.{
  ℕ, suc, ◌+◌, ◌-◌, ◌*◌, ◌/◌, ◌%◌, ◌^◌, ◌≤◌, ◌<◌, ◌≡◌, ◌⊎◌, inl, inr, refl, ap, Bool, true, false,
  ◌||◌, Option, none, some, List, [], ◌∷◌, ◌++◌, arith, ltb, leb, ◌==◌, length, Bool-cases,
  if◌then◌else◌,
}
use microfat.Words.{IsInt64}
use microfat.Text.{Bytes, codes, bytes_eq, has_prefix}
use microfat.Result.{Result, ok, err}
use microfat.Cgroup.Floats.{Floats}
use microfat.Cgroup.Paths.{Files, FileError, not_exist}
use microfat.Cgroup.Tuning.Gogc.{IsClamping}
use microfat.Cgroup.Hierarchy.Walk.{IsShrinking}

-- Numbers that are at least 0, in hundredths; no text is parsed.
abbrev pub hundredths : Floats ℕ
hundredths = record {
  of_int = λ n. n * 100;
  to_int = λ x. (x / 100) % 2 ^ 64;
  ratio = λ n d. n * 100 / d;
  mul = λ x y. x * y / 100;
  div = λ x y. x * 100 / y;
  sub = λ x y. x - y;
  floor = λ x. x / 100 * 100;
  round = λ x. (x + 50) / 100 * 100;
  lt = ltb;
  le = leb;
  eq = ◌==◌;
  is_nan = λ x. false;
  is_inf = λ x. false;
  parse_float = λ s. none;
}

pub hundredths-IsInt64 : (x : ℕ) → IsInt64 (hundredths.to_int x)
hundredths-IsInt64 x = omega arith

pub hundredths-IsClamping : IsClamping hundredths
hundredths-IsClamping = record {
  number = λ a b h k. refl;
  limit = λ n. refl;
  ordered = refl;
  irreflexive = λ x. ground arith;
  rounded = λ x h l m. (ground (arith, l, m), ground (arith, l, m));
}

abbrev has_slash : Bytes → Bool
has_slash [] = false
has_slash (c ∷ s) = c == b'/' || has_slash s

-- The path without its last element.
abbrev parent : Bytes → Bytes
parent [] = []
parent (c ∷ s) = let rest = c ∷ parent s in if has_slash s then rest else []

parent-shorter : (path : Bytes) → length (parent path) ≤ length path - 1
parent-shorter [] = omega arith
parent-shorter (c ∷ []) = omega arith
parent-shorter (c ∷ (d ∷ s)) =
    let shorter = parent-shorter (d ∷ s) in
    elim (Bool-cases (has_slash (d ∷ s))) [
      | inl e ↦ rw e (omega (arith, shorter))
      | inr e ↦ rw e (omega arith)
    ]

abbrev or_root : Bytes → Bytes
or_root [] = codes "/"
or_root (c ∷ s) = c ∷ s

-- The directory of a cleaned path as `filepath.Dir` gives it, also of a relative path.
abbrev dir_of : Bytes → Bytes
dir_of path = if has_slash path then or_root (parent path) else codes "."

abbrev contents : Bytes → List (Bytes × Bytes) → Option Bytes
contents path [] = none
contents path ((name, text) ∷ files) = if bytes_eq name path then some text else contents path files

abbrev files_of : List (Bytes × Bytes) → Bytes → Result FileError Bytes
files_of files path = elim (contents path files) [ none ↦ err not_exist | some text ↦ ok text ]

abbrev pub sample_files : List (Bytes × Bytes)
sample_files =
    (codes "/proc/self/cgroup", codes "0::/app" ++ (10 ∷ []))
    ∷ (codes "/cg/memory.max", codes "max")
    ∷ (codes "/cg/app/memory.max", codes "1073741824" ++ (10 ∷ []))
    ∷ (codes "/cg/app/memory.high", codes "536870912")
    ∷ []

-- The files, their directories, and paths without anything to clean.
abbrev pub sample : Files
sample = record {
  read = files_of sample_files;
  stat = λ path.
      if bytes_eq path (codes "/cg") || bytes_eq path (codes "/cg/app")
      then none
      else elim (contents path sample_files) [ none ↦ some not_exist | some text ↦ none ];
  clean = λ path. path;
  join = λ a b. if bytes_eq b (codes "//app") then a ++ codes "/app" else a ++ (codes "/" ++ b);
  dir = dir_of;
}

relative : dir_of (codes "app") ≡ codes "."
relative = refl

empty : dir_of [] ≡ codes "."
empty = refl

root_own : dir_of (codes "/") ≡ codes "/"
root_own = refl

nested : dir_of (codes "/cg/app") ≡ codes "/cg"
nested = refl

parent-less : (s : Bytes) → has_slash s ≡ true → length (parent s) < length s
parent-less [] h = cc
parent-less (c ∷ s) h = let shorter = parent-shorter (c ∷ s) in omega (arith, shorter)

top : (c : ℕ) (s : Bytes) → (c == b'/') ≡ true → (codes "/" ≡ c ∷ s) ⊎ (1 < suc (length s))
top c [] slash = let same : b'/' ≡ c = ground arith in inl (ap (λ x. x ∷ []) same)
top c (d ∷ s) slash = inr (omega arith)

pub sample-IsShrinking : IsShrinking sample
unfolding has_prefix
sample-IsShrinking [] absolute = cc
sample-IsShrinking (c ∷ s) absolute =
    let slash : (c == b'/') ≡ true = ground arith in
    elim (Bool-cases (has_slash s)) [
      | inl e ↦ rw (slash, e) (rw slash refl, inr (omega (arith, parent-less s e)))
      | inr e ↦ rw (slash, e) (refl, top c s slash)
    ]
