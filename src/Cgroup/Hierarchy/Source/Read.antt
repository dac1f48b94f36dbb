-- ===== src/Cgroup/Hierarchy/Source/Read.antt =====
-- Lemmas on `ReadLimitsCustom` of internal/cgroup/cgroup.go, by the parts that it calls: what the limits are made from.
use microfat.Base.{
  ℕ, ◌≡◌, inl, inr, refl, if◌then◌else◌, false, not, ◌&&◌, Option, none, some, Bool-cases,
  Option-cases, Bool, true,
}
use microfat.Text.{Bytes, codes, is_empty}
use microfat.Result.{ok, reject_if}
use microfat.Result.Yields.{Yields, Yields-bind, Yields-after, Yields-ok}
use microfat.Cgroup.Floats.{Floats}
use microfat.Cgroup.Paths.{Files, mount_inaccessible, exists, resolve_target_directory}
use microfat.Cgroup.Proc.{Membership, parse_proc_cgroup}
use microfat.Cgroup.Tuning.{calculate_gomaxprocs}
use microfat.Cgroup.Memory.{Limits, has_memory_limit, has_memory_high}
use microfat.Cgroup.Memory.Effective.{hard_bound, high_bound}
use microfat.Cgroup.Hierarchy.{
  traverse_cgroup_v2_memory, traverse_cgroup_v1_memory, version_unknown, version_v1, version_v2,
  no_limits, set_hard, set_high, set_cpus?, set_quota, limits_v2, set_v1_memory, read_controller,
  read_cgroup_v2, read_v1_controllers, read_cgroup_v1, read_limits_at, read_limits_custom, cpu_path,
  find_path, cgroup_v1_controller_available, traverse_cgroup_v2_cpu, traverse_cgroup_v1_cpu,
  resolve_cgroup_v1_mem_base, resolve_cgroup_v1_cpu_base,
}
use microfat.Cgroup.Hierarchy.Source.{
  FromController, no_path, unavailable, controller, MemoryFrom, no_group, no_files, no_controllers,
  by_v2, by_v1, has_v2_files, has_v1_files, traverse_v2-From, traverse_v1-From,
}

module _ {F : Type 0} (fl : Floats F) (fs : Files) where
  -- The version and the bounds of some limits.
  abbrev pub LimitsFrom : Bytes → Membership → Limits F → Type 0
  LimitsFrom root m l = MemoryFrom fs root m l.cgroup_version (hard_bound l) (high_bound l)

  module _ (root : Bytes) (m : Membership) where
    set_cpus?-From :
        (o : Option ℕ) (l : Limits F)
        → LimitsFrom root m l
        → LimitsFrom root m (set_cpus? fl fs o l)
    unfolding set_cpus? has_memory_limit has_memory_high
    set_cpus?-From none l h = h
    set_cpus?-From (some n) l h = h

    set_quota-From :
        (o : Option F) (l : Limits F)
        → LimitsFrom root m l
        → LimitsFrom root m (set_quota fl fs o l)
    unfolding set_quota has_memory_limit has_memory_high
    set_quota-From none l h = h
    set_quota-From (some q) l h = elim (Bool-cases (fl.lt (fl.of_int 0) q)) [
      | inl e ↦ rw e (set_cpus?-From (calculate_gomaxprocs fl q) (record l { cpu_quota = q }) h)
      | inr e ↦ rw e h
    ]

    no_limits-From :
        MemoryFrom fs root m version_unknown none none
        → LimitsFrom root m (no_limits fl fs version_unknown)
    unfolding no_limits has_memory_limit has_memory_high
    no_limits-From h = h

    limits_v2-From :
        (a b : Option ℕ)
        → MemoryFrom fs root m version_v2 a b
        → LimitsFrom root m (limits_v2 fl fs (a, b))
    unfolding limits_v2 set_hard set_high no_limits has_memory_limit has_memory_high
    limits_v2-From none none h = h
    limits_v2-From none (some b) h = h
    limits_v2-From (some a) none h = h
    limits_v2-From (some a) (some b) h = h

    v1_memory-From :
        (o : Option ℕ)
        → MemoryFrom fs root m version_v1 o none
        → LimitsFrom root m (set_v1_memory fl fs o (no_limits fl fs version_v1))
    unfolding set_v1_memory no_limits has_memory_limit has_memory_high
    v1_memory-From none h = h
    v1_memory-From (some n) h = h

    read_cgroup_v2-From :
        has_v2_files fs root ≡ true
        → Yields (LimitsFrom root m) (read_cgroup_v2 fl fs root m.v2_path)
    unfolding read_cgroup_v2
    read_cgroup_v2-From v2 =
        Yields-bind {P = λ t. resolve_target_directory fs root m.v2_path ≡ ok t}
          (resolve_target_directory fs root m.v2_path) _ (record { of = λ t e. e })
          λ target at.
            Yields-bind (traverse_cgroup_v2_memory fs target root) _
              (traverse_v2-From fs target root)
              λ (a, b) h. Yields-after (traverse_cgroup_v2_cpu fl fs target root) _ λ q.
                Yields-ok _ (
                  set_quota-From q (limits_v2 fl fs (a, b))
                    (limits_v2-From a b (by_v2 {target = target} v2 at h)))

  read_controller-From :
      (base : Bytes) (o : Option Bytes)
      → Yields
          (FromController fs base o)
          (read_controller fl fs o base (traverse_cgroup_v1_memory fs base))
  unfolding read_controller
  read_controller-From base none = Yields-ok none no_path
  read_controller-From base (some path) =
      elim (Bool-cases (not (is_empty path) && cgroup_v1_controller_available fs base)) [
        | inl e ↦ rw e (
            Yields-bind {P = λ t. resolve_target_directory fs base path ≡ ok t}
              (resolve_target_directory fs base path) _ (record { of = λ t k. k })
              λ target at. record {
                of = λ hard k.
                    controller {target = target} at ((traverse_v1-From fs base target).of hard k);
              })
        | inr e ↦ rw e (Yields-ok none (unavailable e))
      ]

  module _ (root : Bytes) (m : Membership) where
    read_v1_controllers-From :
        has_v2_files fs root ≡ false
        → (mem cpu : Option Bytes) → find_path (codes "memory") m.v1_paths ≡ mem
        → Yields (LimitsFrom root m) (read_v1_controllers fl fs root mem cpu)
    unfolding read_v1_controllers
    read_v1_controllers-From other mem cpu e =
        let base = resolve_cgroup_v1_mem_base fs root in
        let cpu_base = resolve_cgroup_v1_cpu_base fs root in
        Yields-bind (read_controller fl fs mem base (traverse_cgroup_v1_memory fs base)) _
          (read_controller-From base mem)
          λ o h.
            Yields-after
              (read_controller fl fs cpu cpu_base (traverse_cgroup_v1_cpu fl fs cpu_base)) _
              λ q.
                Yields-ok _
                  (set_quota-From root m q _ (v1_memory-From root m o (by_v1 other (rw e h))))

    read_cgroup_v1-From :
        has_v2_files fs root ≡ false
        → Yields (LimitsFrom root m) (read_cgroup_v1 fl fs root m.v1_paths)
    unfolding read_cgroup_v1
    read_cgroup_v1-From other = elim (Option-cases (find_path (codes "memory") m.v1_paths)) [
      | inr (path, e) ↦
          rw (read_cgroup_v1, e)
            (read_v1_controllers-From other (some path) (cpu_path fl fs m.v1_paths) e)
      | inl e ↦ elim (Option-cases (cpu_path fl fs m.v1_paths)) [
        | inr (path, k) ↦
            rw (read_cgroup_v1, e, k) (read_v1_controllers-From other none (some path) e)
        | inl k ↦
            rw (read_cgroup_v1, e, k) (Yields-ok _ (no_limits-From root m (no_controllers other e)))
      ]
    ]

    -- Under version 2, with a group and without.
    by_group :
        (has_group : Bool)
        → m.has_v2 ≡ has_group
        → has_v2_files fs root ≡ true
        → Yields (LimitsFrom root m) (
            if not has_group
            then ok (no_limits fl fs version_unknown)
            else read_cgroup_v2 fl fs root m.v2_path)
    by_group true e v2 = read_cgroup_v2-From root m v2
    by_group false e v2 = Yields-ok _ (no_limits-From root m (no_group v2 e))

    read_limits_at-From : Yields (LimitsFrom root m) (read_limits_at fl fs root m)
    unfolding read_limits_at
    read_limits_at-From = elim (Bool-cases (has_v2_files fs root)) [
      | inl v2 ↦ rw v2 (by_group m.has_v2 refl v2)
      | inr other ↦ elim (Bool-cases (has_v1_files fs root)) [
        | inl v1 ↦ rw (other, v1) (read_cgroup_v1-From other)
        | inr neither ↦
            rw (other, neither) (Yields-ok _ (no_limits-From root m (no_files other neither)))
      ]
    ]

  -- The groups of the process, and that the bounds come from them.
  abbrev pub ReadFrom : Bytes → Bytes → Limits F → Type 0
  ReadFrom root proc l =
      (m : Membership) × (parse_proc_cgroup fs proc ≡ ok m) × LimitsFrom (fs.clean root) m l

  pub read_limits_custom-From :
      (root proc : Bytes) (l : Limits F)
      → read_limits_custom fl fs root proc ≡ ok l
      → ReadFrom root proc l
  unfolding read_limits_custom
  read_limits_custom-From root proc l e =
      let read : Yields (ReadFrom root proc) (read_limits_custom fl fs root proc) =
        Yields-after (reject_if (not (exists fs (fs.clean root))) mount_inaccessible) _ λ u.
          Yields-bind {P = λ m. parse_proc_cgroup fs proc ≡ ok m} (parse_proc_cgroup fs proc) _
            (record { of = λ m k. k })
            λ m k. record {
              of = λ l' f. (m, k, (read_limits_at-From (fs.clean root) m).of l' f);
            } in
      read.of l e
