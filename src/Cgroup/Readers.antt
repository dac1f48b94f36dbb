-- ===== src/Cgroup/Readers.antt =====
-- The readers of the limit files in one directory: `readCgroupV2MemoryValue`, `readCgroupV2CPU`,
-- `readCgroupV1Memory` and `readCgroupV1CPU` of internal/cgroup/cgroup.go.
use microfat.Base.{ℕ, Bool, ◌||◌, Option, none, some, List, [], ◌∷◌, ◌++◌, if◌then◌else◌}
use microfat.Words.{is_neg, le64}
use microfat.Text.{Bytes, codes, bytes_eq, is_empty, is_space}
use microfat.Text.Number.{parse_int}
use microfat.Result.{Result, ok, err, panic, ◌>>=◌}
use microfat.Cgroup.Floats.{Floats}
use microfat.Cgroup.Paths.{
  Files, FileError, not_exist, other_failure, CgroupError, limit_corrupted, read_trimmed_file,
}
use microfat.Cgroup.Memory.{unlimited_cgroup_v1_memory_threshold}

-- The value in the text of a file, where there is one; a file that does not exist has none.
unfoldable pub value_of :
    {A : Type 0}
    → (Bytes → Result CgroupError (Option A))
    → Result FileError Bytes
    → Result CgroupError (Option A)
value_of parse (ok text) = parse text
value_of parse (err not_exist) = ok none
value_of parse (err other_failure) = err limit_corrupted
value_of parse panic = panic

unfoldable pub read_value :
    {A : Type 0}
    → Files
    → Bytes
    → (Bytes → Result CgroupError (Option A))
    → Result CgroupError (Option A)
read_value fs path parse = value_of parse (read_trimmed_file fs path)

abbrev pub accept : (ℕ → Bool) → Option ℕ → Result CgroupError (Option ℕ)
accept bad none = err limit_corrupted
accept bad (some val) = if bad val then err limit_corrupted else ok (some val)

-- `memory.max` and `memory.high`.
unfoldable pub parse_v2_memory : Bytes → Result CgroupError (Option ℕ)
parse_v2_memory text =
    if bytes_eq text (codes "max")
    then ok none
    else if is_empty text
    then err limit_corrupted
    else accept is_neg (parse_int text)

unfoldable pub read_cgroup_v2_memory_value : Files → Bytes → Bytes → Result CgroupError (Option ℕ)
read_cgroup_v2_memory_value fs dir filename = read_value fs (fs.join dir filename) parse_v2_memory

-- `memory.limit_in_bytes`: a limit from the threshold on is none.
abbrev pub below_threshold : Option ℕ → Option ℕ
below_threshold none = none
below_threshold (some val) =
    if le64 unlimited_cgroup_v1_memory_threshold val then none else some val

unfoldable pub parse_v1_memory : Bytes → Result CgroupError (Option ℕ)
parse_v1_memory text =
    if is_empty text
    then err limit_corrupted
    else if bytes_eq text (codes "-1")
    then ok none
    else (do val ← accept (λ v. le64 v 0) (parse_int text); ok (below_threshold val))

unfoldable pub read_cgroup_v1_memory : Files → Bytes → Result CgroupError (Option ℕ)
read_cgroup_v1_memory fs dir =
    read_value fs (fs.join dir (codes "memory.limit_in_bytes")) parse_v1_memory

-- `strings.Fields`, behind what was read of a field.
unfoldable pub fields_onto : Bytes → Bytes → List Bytes
fields_onto part [] = if is_empty part then [] else part ∷ []
fields_onto part (c ∷ s) =
    let next = fields_onto [] s in
    let more = fields_onto (part ++ (c ∷ [])) s in
    if is_space c then (if is_empty part then next else part ∷ next) else more

module _ {F : Type 0} (fl : Floats F) where
  -- The quotient of a quota and a period, where both are positive numbers.
  unfoldable pub quota_ratio : Option F → Option F → Result CgroupError (Option F)
  quota_ratio none period = err limit_corrupted
  quota_ratio (some quota) none = err limit_corrupted
  quota_ratio (some quota) (some period) =
      if fl.le period (fl.of_int 0) || fl.le quota (fl.of_int 0)
      then err limit_corrupted
      else ok (some (fl.div quota period))

  -- No quota, with a period that is a positive number.
  unfoldable pub no_quota : Option F → Result CgroupError (Option F)
  no_quota none = err limit_corrupted
  no_quota (some period) = if fl.le period (fl.of_int 0) then err limit_corrupted else ok none

  unfoldable pub parse_cpu_fields : List Bytes → Result CgroupError (Option F)
  parse_cpu_fields (quota ∷ period ∷ []) =
      if bytes_eq quota (codes "max")
      then no_quota (fl.parse_float period)
      else quota_ratio (fl.parse_float quota) (fl.parse_float period)
  parse_cpu_fields _ = err limit_corrupted

  unfoldable pub read_cgroup_v2_cpu : Files → Bytes → Result CgroupError (Option F)
  read_cgroup_v2_cpu fs dir = read_value fs (fs.join dir (codes "cpu.max")) (λ text.
      if is_empty text then err limit_corrupted else parse_cpu_fields (fields_onto [] text))

  unfoldable pub read_cgroup_v1_cpu : Files → Bytes → Result CgroupError (Option F)
  read_cgroup_v1_cpu fs dir = read_value fs (fs.join dir (codes "cpu.cfs_quota_us")) λ quota.
      read_value fs (fs.join dir (codes "cpu.cfs_period_us")) λ period.
        if bytes_eq quota (codes "-1")
        then no_quota (fl.parse_float period)
        else quota_ratio (fl.parse_float quota) (fl.parse_float period)
