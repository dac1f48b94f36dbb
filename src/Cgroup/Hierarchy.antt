-- ===== src/Cgroup/Hierarchy.antt =====
-- The limits of a process, read from the directories of its control groups: the loops over the parent
-- directories and `ReadLimitsCustom` of internal/cgroup/cgroup.go.
pub mod Walk
pub mod Valid
pub mod Least
pub mod Source
use microfat.Cgroup.Readers.{
  value_of, read_value, accept, parse_v2_memory, read_cgroup_v2_memory_value, below_threshold,
  parse_v1_memory, read_cgroup_v1_memory, fields_onto, quota_ratio, no_quota, parse_cpu_fields,
  read_cgroup_v2_cpu, read_cgroup_v1_cpu,
}
use microfat.Base.{
  ℕ, zero, suc, ◌+◌, ◌*◌, ◌^◌, Bool, true, false, not, ◌&&◌, ◌||◌, Option, none, some, List, [],
  ◌∷◌, ◌++◌, ◌==◌, ltb, length, if◌then◌else◌,
}
use microfat.Words.{is_neg, lt64, le64}
use microfat.Text.{Bytes, codes, bytes_eq, is_empty, is_space}
use microfat.Text.Number.{parse_int}
use microfat.Result.{Result, ok, err, panic, ◌>>=◌, ◌>>◌, reject_if}
use microfat.Cgroup.Floats.{Floats}
use microfat.Cgroup.Paths.{
  Files, FileError, not_exist, other_failure, CgroupError, mount_inaccessible, limit_corrupted,
  exists, is_subpath, resolve_target_directory, read_trimmed_file,
}
use microfat.Cgroup.Memory.{Limits, unlimited_cgroup_v1_memory_threshold, effective_memory_limit}
use microfat.Cgroup.Tuning.{calculate_gomaxprocs}
use microfat.Cgroup.Proc.{Membership, parse_proc_cgroup}

-- `if ok { if !has || val < min { min, has = val, true } }`
unfoldable pub keep_least : {A : Type 0} → (A → A → Bool) → Option A → Option A → Option A
keep_least less best none = best
keep_least less none (some val) = some val
keep_least less (some least) (some val) = if less val least then some val else some least

-- The loop from a directory up to the root, with what is read of a directory and how it is kept. The fuel is the
-- number of directories; without fuel the loop is cut off, which is no outcome of the code.
unfoldable pub traverse :
    {V S : Type 0}
    → Files
    → (Bytes → Result CgroupError V)
    → (S → V → S)
    → Bytes
    → ℕ
    → Bytes
    → S
    → Result CgroupError S
traverse fs read keep root zero curr s = panic
traverse fs read keep root (suc fuel) curr s = do
  val ← read curr
  let kept = keep s val
  let rest = traverse fs read keep root fuel (fs.dir curr) kept
  (if bytes_eq curr root || bytes_eq (fs.dir curr) curr || not (is_subpath root (fs.dir curr))
      then ok kept
      else rest)

unfoldable pub read_both : Files → Bytes → Result CgroupError (Option ℕ × Option ℕ)
read_both fs dir = do
  hard ← read_cgroup_v2_memory_value fs dir (codes "memory.max")
  high ← read_cgroup_v2_memory_value fs dir (codes "memory.high")
  ok (hard, high)

abbrev pub keep_both : Option ℕ × Option ℕ → Option ℕ × Option ℕ → Option ℕ × Option ℕ
keep_both (hard, high) (a, b) = (keep_least lt64 hard a, keep_least lt64 high b)

-- A path has no more directories than it has bytes.
abbrev pub enough : Bytes → ℕ
enough path = suc (length path)

unfoldable pub traverse_cgroup_v2_memory :
    Files → Bytes → Bytes → Result CgroupError (Option ℕ × Option ℕ)
traverse_cgroup_v2_memory fs target root =
    traverse fs (read_both fs) keep_both root (enough target) target (none, none)

unfoldable pub traverse_cgroup_v1_memory : Files → Bytes → Bytes → Result CgroupError (Option ℕ)
traverse_cgroup_v1_memory fs base target =
    traverse fs (read_cgroup_v1_memory fs) (keep_least lt64) base (enough target) target none

-- Where a hierarchy has its directories of a version 1 controller.
unfoldable pub resolve_cgroup_v1_mem_base : Files → Bytes → Bytes
resolve_cgroup_v1_mem_base fs root =
    let base = fs.join root (codes "memory") in
    if exists fs base
    then base
    else if exists fs (fs.join root (codes "memory.limit_in_bytes"))
    then root
    else base

unfoldable pub resolve_cgroup_v1_cpu_base : Files → Bytes → Bytes
resolve_cgroup_v1_cpu_base fs root =
    let base = fs.join root (codes "cpu") in
    let account = fs.join root (codes "cpu,cpuacct") in
    if exists fs base
    then base
    else if exists fs account
    then account
    else if exists fs (fs.join root (codes "cpu.cfs_quota_us"))
    then root
    else base

unfoldable pub cgroup_v1_controller_available : Files → Bytes → Bool
cgroup_v1_controller_available fs base = elim (fs.stat base) [
  | none ↦ true
  | some not_exist ↦ false
  | some other_failure ↦ true
]

abbrev pub version_unknown : ℕ
version_unknown = 0

abbrev pub version_v1 : ℕ
version_v1 = 1

abbrev pub version_v2 : ℕ
version_v2 = 2

-- A look-up in the map of the controllers.
unfoldable pub find_path : Bytes → List (Bytes × Bytes) → Option Bytes
find_path name [] = none
find_path name ((key, path) ∷ paths) = if bytes_eq key name then some path else find_path name paths

module _ {F : Type 0} (fl : Floats F) (fs : Files) where
  unfoldable pub traverse_cgroup_v2_cpu : Bytes → Bytes → Result CgroupError (Option F)
  traverse_cgroup_v2_cpu target root =
      traverse fs (read_cgroup_v2_cpu fl fs) (keep_least fl.lt) root (enough target) target none

  unfoldable pub traverse_cgroup_v1_cpu : Bytes → Bytes → Result CgroupError (Option F)
  traverse_cgroup_v1_cpu base target =
      traverse fs (read_cgroup_v1_cpu fl fs) (keep_least fl.lt) base (enough target) target none

  -- `Limits{CgroupVersion: version}`
  unfoldable pub no_limits : ℕ → Limits F
  no_limits version = record {
    retained_executable_bytes = 0;
    cgroup_version = version;
    memory_limit_bytes = 0;
    memory_high_bytes = 0;
    effective_memory_limit_bytes = 0;
    memory_limit_finite = false;
    memory_high_finite = false;
    cpu_quota = fl.of_int 0;
    cpus = 0;
  }

  unfoldable pub set_hard : Option ℕ → Limits F → Limits F
  set_hard none l = l
  set_hard (some bytes) l = record l { memory_limit_bytes = bytes; memory_limit_finite = true }

  unfoldable pub set_high : Option ℕ → Limits F → Limits F
  set_high none l = l
  set_high (some bytes) l = record l { memory_high_bytes = bytes; memory_high_finite = true }

  unfoldable pub set_cpus? : Option ℕ → Limits F → Limits F
  set_cpus? none l = l
  set_cpus? (some cpus) l = record l { cpus = cpus }

  -- `if hasCPU && minQuota > 0`
  unfoldable pub set_quota : Option F → Limits F → Limits F
  set_quota none l = l
  set_quota (some quota) l =
      if fl.lt (fl.of_int 0) quota
      then set_cpus? (calculate_gomaxprocs fl quota) (record l { cpu_quota = quota })
      else l

  -- The limits by version 2, with the effective limit that follows from the two bounds.
  unfoldable pub limits_v2 : Option ℕ × Option ℕ → Limits F
  limits_v2 (hard, high) =
      let l = set_high high (set_hard hard (no_limits version_v2)) in
      record l { effective_memory_limit_bytes = (effective_memory_limit l).0 }

  unfoldable pub read_cgroup_v2 : Bytes → Bytes → Result CgroupError (Limits F)
  read_cgroup_v2 root rel_path = do
    target ← resolve_target_directory fs root rel_path
    bounds ← traverse_cgroup_v2_memory fs target root
    quota ← traverse_cgroup_v2_cpu target root
    ok (set_quota quota (limits_v2 bounds))

  -- The part on a version 1 controller: what `follow` reads at its directory, where there is one.
  unfoldable pub read_controller :
      {A : Type 0}
      → Option Bytes
      → Bytes
      → (Bytes → Result CgroupError (Option A))
      → Result CgroupError (Option A)
  read_controller none base follow = ok none
  read_controller (some rel_path) base follow =
      if not (is_empty rel_path) && cgroup_v1_controller_available fs base
      then resolve_target_directory fs base rel_path >>= follow
      else ok none

  unfoldable pub set_v1_memory : Option ℕ → Limits F → Limits F
  set_v1_memory none l = l
  set_v1_memory (some bytes) l = record l {
    memory_limit_bytes = bytes;
    effective_memory_limit_bytes = bytes;
    memory_limit_finite = true;
  }

  -- The path of a processor controller, under the first of its two names.
  unfoldable pub cpu_path : List (Bytes × Bytes) → Option Bytes
  cpu_path paths = elim (find_path (codes "cpu") paths) [
    | some path ↦ some path
    | none ↦ find_path (codes "cpu,cpuacct") paths
  ]

  unfoldable pub read_v1_controllers :
      Bytes → Option Bytes → Option Bytes → Result CgroupError (Limits F)
  read_v1_controllers root mem_path cpu_path = do
    let mem_base = resolve_cgroup_v1_mem_base fs root
    let cpu_base = resolve_cgroup_v1_cpu_base fs root
    bytes ← read_controller mem_path mem_base (traverse_cgroup_v1_memory fs mem_base)
    quota ← read_controller cpu_path cpu_base (traverse_cgroup_v1_cpu cpu_base)
    ok (set_quota quota (set_v1_memory bytes (no_limits version_v1)))

  unfoldable pub read_cgroup_v1 : Bytes → List (Bytes × Bytes) → Result CgroupError (Limits F)
  read_cgroup_v1 root paths = elim (find_path (codes "memory") paths) [
    | some path ↦ read_v1_controllers root (some path) (cpu_path paths)
    | none ↦ elim (cpu_path paths) [
      | some path ↦ read_v1_controllers root none (some path)
      | none ↦ ok (no_limits version_unknown)
    ]
  ]

  -- The version by the files that exist at the root, and the limits by that version.
  unfoldable pub read_limits_at : Bytes → Membership → Result CgroupError (Limits F)
  read_limits_at root m =
      let at : Bytes → Bool = λ name. exists fs (fs.join root name) in
      if at (codes "memory.max") || at (codes "memory.high") || at (codes "cgroup.controllers")
      then if not m.has_v2 then ok (no_limits version_unknown) else read_cgroup_v2 root m.v2_path
      else if exists fs (fs.join (fs.join root (codes "memory")) (codes "memory.limit_in_bytes"))
          || at (codes "memory.limit_in_bytes")
          || exists fs (fs.join (resolve_cgroup_v1_cpu_base fs root) (codes "cpu.cfs_quota_us"))
      then read_cgroup_v1 root m.v1_paths
      else ok (no_limits version_unknown)

  unfoldable pub read_limits_custom : Bytes → Bytes → Result CgroupError (Limits F)
  read_limits_custom root proc_cgroup_path = do
    reject_if (not (exists fs (fs.clean root))) mount_inaccessible
    m ← parse_proc_cgroup fs proc_cgroup_path
    read_limits_at (fs.clean root) m
