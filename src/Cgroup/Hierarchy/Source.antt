-- ===== src/Cgroup/Hierarchy/Source.antt =====
-- Where the memory bounds of the limits come from that `ReadLimitsCustom` of internal/cgroup/cgroup.go returns.
pub mod Read
use microfat.Base.{ℕ, ◌≡◌, ap, false, not, ◌&&◌, ◌||◌, Option, none, some, List, Bool, true}
use microfat.Words.{lt64}
use microfat.Text.{Bytes, codes, is_empty}
use microfat.Result.{ok}
use microfat.Result.Yields.{Yields}
use microfat.Cgroup.Paths.{Files, exists, resolve_target_directory}
use microfat.Cgroup.Proc.{Membership}
use microfat.Cgroup.Readers.{read_cgroup_v1_memory}
use microfat.Cgroup.Hierarchy.{
  enough, keep_least, keep_both, read_both, traverse_cgroup_v2_memory, traverse_cgroup_v1_memory,
  version_unknown, version_v1, version_v2, find_path, cgroup_v1_controller_available,
  resolve_cgroup_v1_mem_base, resolve_cgroup_v1_cpu_base,
}
use microfat.Cgroup.Hierarchy.Walk.{ancestors, read_all}
use microfat.Cgroup.Hierarchy.Least.{
  IsLeast, firsts, seconds, kept-IsLeast, keep_all-both, traverse-IsKept,
}

module _ (fs : Files) where
  -- The bounds of version 2: both files were read in every directory from the target up to the root, and each
  -- bound is the least of what its file said.
  abbrev pub FromV2 : Bytes → Bytes → Option ℕ → Option ℕ → Type 0
  FromV2 root target hard high =
      (vs : List (Option ℕ × Option ℕ)) × (read_all (read_both fs)
          (ancestors fs root (enough target) target)
        ≡ ok vs)
      × IsLeast (firsts vs) hard
      × IsLeast (seconds vs) high

  -- The bound of version 1: the file was read in every directory from the target up to the base.
  abbrev pub FromV1 : Bytes → Bytes → Option ℕ → Type 0
  FromV1 base target hard =
      (vs : List (Option ℕ)) × (read_all (read_cgroup_v1_memory fs)
          (ancestors fs base (enough target) target)
        ≡ ok vs)
      × IsLeast vs hard

  -- The bound of the memory controller of version 1, under the path that the process has there.
  pub data FromController (base : Bytes) : Option Bytes → Option ℕ → Type 0 where
    no_path : FromController base none none
    unavailable :
        {path : Bytes}
        → (not (is_empty path) && cgroup_v1_controller_available fs base) ≡ false
        → FromController base (some path) none
    controller :
        {path target : Bytes} {hard : Option ℕ}
        → resolve_target_directory fs base path ≡ ok target
        → FromV1 base target hard
        → FromController base (some path) hard

  -- The files by which the versions are told apart.
  abbrev pub has_v2_files : Bytes → Bool
  has_v2_files root =
      exists fs (fs.join root (codes "memory.max"))
      || exists fs (fs.join root (codes "memory.high"))
      || exists fs (fs.join root (codes "cgroup.controllers"))

  abbrev pub has_v1_files : Bytes → Bool
  has_v1_files root =
      exists fs (fs.join (fs.join root (codes "memory")) (codes "memory.limit_in_bytes"))
      || exists fs (fs.join root (codes "memory.limit_in_bytes"))
      || exists fs (fs.join (resolve_cgroup_v1_cpu_base fs root) (codes "cpu.cfs_quota_us"))

  -- The version, and the two bounds, of the groups of a process. The version is unknown where the process has no
  -- group of version 2, or where there are no files of version 1 or the process has no memory controller.
  pub data MemoryFrom (root : Bytes) (m : Membership) : ℕ → Option ℕ → Option ℕ → Type 0 where
    no_group :
        has_v2_files root ≡ true → m.has_v2 ≡ false → MemoryFrom root m version_unknown none none
    no_files :
        has_v2_files root ≡ false
        → has_v1_files root ≡ false
        → MemoryFrom root m version_unknown none none
    no_controllers :
        has_v2_files root ≡ false
        → find_path (codes "memory") m.v1_paths ≡ none
        → MemoryFrom root m version_unknown none none
    by_v2 :
        {target : Bytes} {hard high : Option ℕ}
        → has_v2_files root ≡ true
        → resolve_target_directory fs root m.v2_path ≡ ok target
        → FromV2 root target hard high
        → MemoryFrom root m version_v2 hard high
    by_v1 :
        {hard : Option ℕ}
        → has_v2_files root ≡ false
        → FromController
            (resolve_cgroup_v1_mem_base fs root)
            (find_path (codes "memory") m.v1_paths)
            hard
        → MemoryFrom root m version_v1 hard none

  pub traverse_v2-From :
      (target root : Bytes)
      → Yields (λ (a, b). FromV2 root target a b) (traverse_cgroup_v2_memory fs target root)
  unfolding traverse_cgroup_v2_memory
  traverse_v2-From target root = record {
    of = λ (a, b) e.
        let (vs, reads, kept) =
          (traverse-IsKept fs root (read_both fs) keep_both (enough target) target (none, none)).of
            (a, b) e in
        let both = keep_all-both none none vs in
        let hard = kept-IsLeast (firsts vs) in
        let high = kept-IsLeast (seconds vs) in
        let same = rw both at kept in
        (vs, reads, rw (ap (λ p. p.0) same) at hard, rw (ap (λ p. p.1) same) at high);
  }

  pub traverse_v1-From :
      (base target : Bytes)
      → Yields (λ a. FromV1 base target a) (traverse_cgroup_v1_memory fs base target)
  unfolding traverse_cgroup_v1_memory
  traverse_v1-From base target = record {
    of = λ a e.
        let (vs, reads, kept) =
          (traverse-IsKept fs base (read_cgroup_v1_memory fs) (keep_least lt64) (enough target)
              target none).of
            a e in
        let hard = kept-IsLeast vs in (vs, reads, rw kept at hard);
  }
