-- ===== src/Cgroup/Hierarchy/Valid.antt =====
-- The limits that are read are valid.
use microfat.Base.{
  ℕ, ◌≡◌, inl, inr, refl, Bool, false, not, ◌&&◌, Option, none, some, arith, Bool-cases,
  Option-cases, List,
}
use microfat.Words.{IsNonneg, is_neg, lt64, le64}
use microfat.Text.{Bytes, codes, bytes_eq, is_empty}
use microfat.Text.Number.{parse_int}
use microfat.Words.Signed.{le64-zero_false}
use microfat.Text.Number.Range.{parse_int-IsInt64}
use microfat.Result.{Result, ok, err, panic, reject_if}
use microfat.Result.Yields.{
  Yields, Yields-bind, Yields-after, Yields-if, Yields-ok, Yields-err, Yields-panic,
}
use microfat.Cgroup.Floats.{Floats}
use microfat.Cgroup.Paths.{
  Files, FileError, not_exist, other_failure, CgroupError, limit_corrupted, mount_inaccessible,
  exists, resolve_target_directory,
}
use microfat.Cgroup.Proc.{Membership, parse_proc_cgroup}
use microfat.Cgroup.Tuning.{calculate_gomaxprocs}
use microfat.Cgroup.Memory.{
  Limits, unlimited_cgroup_v1_memory_threshold, effective_memory_limit, has_memory_limit,
  has_memory_high,
}
use microfat.Cgroup.Memory.Effective.{IsValid, least-IsNonneg}
use microfat.Cgroup.Hierarchy.{
  keep_least, keep_both, read_both, traverse_cgroup_v2_memory, traverse_cgroup_v1_memory, no_limits,
  set_hard, set_high, set_cpus?, set_quota, limits_v2, set_v1_memory, read_controller,
  read_cgroup_v2, read_v1_controllers, read_cgroup_v1, read_limits_at, read_limits_custom, cpu_path,
  find_path, cgroup_v1_controller_available, traverse_cgroup_v2_cpu, traverse_cgroup_v1_cpu,
  resolve_cgroup_v1_mem_base, resolve_cgroup_v1_cpu_base,
}
use microfat.Cgroup.Readers.{
  value_of, read_value, accept, below_threshold, parse_v2_memory, parse_v1_memory,
  read_cgroup_v2_memory_value, read_cgroup_v1_memory,
}
use microfat.Cgroup.Hierarchy.Walk.{traverse-Yields}

-- A bound that is finite is at least 0.
abbrev IsBound : Option ℕ → Type 0
IsBound none = Unit
IsBound (some n) = IsNonneg n

value_of-Yields :
    {A : Type 0} {P : Option A → Type 0} (parse : Bytes → Result CgroupError (Option A))
    (r : Result FileError Bytes)
    → P none
    → ((text : Bytes) → Yields P (parse text))
    → Yields P (value_of parse r)
unfolding value_of
value_of-Yields parse (ok text) h k = k text
value_of-Yields parse (err not_exist) h k = Yields-ok none h
value_of-Yields parse (err other_failure) h k = Yields-err limit_corrupted
value_of-Yields parse panic h k = Yields-panic

accept-IsBound :
    (bad : ℕ → Bool) (o : Option ℕ)
    → ((n : ℕ) → o ≡ some n → bad n ≡ false → IsNonneg n)
    → Yields IsBound (accept bad o)
accept-IsBound bad none h = Yields-err limit_corrupted
accept-IsBound bad (some n) h = elim (Bool-cases (bad n)) [
  | inl b ↦ rw b (Yields-err limit_corrupted)
  | inr g ↦ rw g (Yields-ok (some n) (h n refl g))
]

parse_v2_memory-IsBound : (text : Bytes) → Yields IsBound (parse_v2_memory text)
unfolding parse_v2_memory
parse_v2_memory-IsBound text = Yields-if (bytes_eq text (codes "max")) _ _ (Yields-ok none tt) (
    Yields-if (is_empty text) _ _ (Yields-err limit_corrupted)
      (accept-IsBound is_neg (parse_int text) (λ n e g. ground (arith, g))))

below_threshold-IsBound : (o : Option ℕ) → IsBound o → IsBound (below_threshold o)
below_threshold-IsBound none h = tt
below_threshold-IsBound (some n) h =
    elim (Bool-cases (le64 unlimited_cgroup_v1_memory_threshold n)) [
      | inl e ↦ rw e tt
      | inr e ↦ rw e h
    ]

parse_v1_memory-IsBound : (text : Bytes) → Yields IsBound (parse_v1_memory text)
unfolding parse_v1_memory
parse_v1_memory-IsBound text = Yields-if (is_empty text) _ _ (Yields-err limit_corrupted) (
    Yields-if (bytes_eq text (codes "-1")) _ _ (Yields-ok none tt) (
      Yields-bind (accept (λ v. le64 v 0) (parse_int text)) _
        (accept-IsBound (λ v. le64 v 0) (parse_int text)
          (λ n e g. (le64-zero_false n (parse_int-IsInt64 text n e) g).1))
        (λ o h. Yields-ok (below_threshold o) (below_threshold-IsBound o h))))

keep_least-IsBound :
    (best o : Option ℕ) → IsBound best → IsBound o → IsBound (keep_least lt64 best o)
unfolding keep_least
keep_least-IsBound best none h k = h
keep_least-IsBound none (some n) h k = k
keep_least-IsBound (some m) (some n) h k = elim (Bool-cases (lt64 n m)) [
  | inl e ↦ rw e k
  | inr e ↦ rw e h
]

abbrev AreBounds : Option ℕ × Option ℕ → Type 0
AreBounds (a, b) = IsBound a × IsBound b

traverse_v2-AreBounds :
    (fs : Files) (target root : Bytes) → Yields AreBounds (traverse_cgroup_v2_memory fs target root)
unfolding traverse_cgroup_v2_memory read_both read_cgroup_v2_memory_value read_value
traverse_v2-AreBounds fs target root =
    let value : (name d : Bytes) → Yields IsBound (read_cgroup_v2_memory_value fs d name) =
      λ name d. value_of-Yields parse_v2_memory _ tt parse_v2_memory-IsBound in
    traverse-Yields {P = AreBounds} fs (read_both fs) keep_both root
      (λ d.
        Yields-bind (read_cgroup_v2_memory_value fs d (codes "memory.max")) _
          (value (codes "memory.max") d)
          (λ a h.
            Yields-bind (read_cgroup_v2_memory_value fs d (codes "memory.high")) _
              (value (codes "memory.high") d) (λ b k. Yields-ok (a, b) (h, k))))
      (λ (s, t) (a, b) (h, k) (p, q). (keep_least-IsBound s a h p, keep_least-IsBound t b k q)) _
      target (none, none) (tt, tt)

traverse_v1-IsBound :
    (fs : Files) (base target : Bytes) → Yields IsBound (traverse_cgroup_v1_memory fs base target)
unfolding traverse_cgroup_v1_memory read_cgroup_v1_memory read_value
traverse_v1-IsBound fs base target =
    traverse-Yields {P = IsBound} fs (read_cgroup_v1_memory fs) (keep_least lt64) base
      (λ d. value_of-Yields parse_v1_memory _ tt parse_v1_memory-IsBound)
      (λ s v h k. keep_least-IsBound s v h k) _ target none tt

-- Limits with the effective bytes that the method reports.
reported-IsValid :
    {F : Type 0} (l : Limits F)
    → IsNonneg l.memory_limit_bytes
    → IsNonneg l.memory_high_bytes
    → l.effective_memory_limit_bytes ≡ 0
    → IsValid (record l { effective_memory_limit_bytes = (effective_memory_limit l).0 })
unfolding has_memory_limit has_memory_high
reported-IsValid l h k e =
    let (same, _) = least-IsNonneg l (record { hard = h; high = k; effective = inl e }) in
    record { hard = h; high = k; effective = inr same }

module _ {F : Type 0} (fl : Floats F) (fs : Files) where
  no_limits-IsValid : (version : ℕ) → IsValid (no_limits fl fs version)
  unfolding no_limits
  no_limits-IsValid version = record {
    hard = omega arith;
    high = omega arith;
    effective = inl refl;
  }

  set_cpus?-IsValid : (o : Option ℕ) (l : Limits F) → IsValid l → IsValid (set_cpus? fl fs o l)
  unfolding set_cpus? has_memory_limit has_memory_high
  set_cpus?-IsValid none l v = v
  set_cpus?-IsValid (some n) l v = record { hard = v.hard; high = v.high; effective = v.effective }

  set_quota-IsValid : (o : Option F) (l : Limits F) → IsValid l → IsValid (set_quota fl fs o l)
  unfolding set_quota has_memory_limit has_memory_high
  set_quota-IsValid none l v = v
  set_quota-IsValid (some q) l v = elim (Bool-cases (fl.lt (fl.of_int 0) q)) [
    | inl e ↦ rw e (
        set_cpus?-IsValid (calculate_gomaxprocs fl q) (record l { cpu_quota = q })
          (record { hard = v.hard; high = v.high; effective = v.effective }))
    | inr e ↦ rw e v
  ]

  limits_v2-IsValid : (b : Option ℕ × Option ℕ) → AreBounds b → IsValid (limits_v2 fl fs b)
  unfolding limits_v2 set_hard set_high no_limits
  limits_v2-IsValid (none, none) (h, k) = reported-IsValid _ (omega arith) (omega arith) refl
  limits_v2-IsValid (none, some b) (h, k) = reported-IsValid _ (omega arith) k refl
  limits_v2-IsValid (some a, none) (h, k) = reported-IsValid _ h (omega arith) refl
  limits_v2-IsValid (some a, some b) (h, k) = reported-IsValid _ h k refl

  set_v1_memory-IsValid :
      (o : Option ℕ) → IsBound o → IsValid (set_v1_memory fl fs o (no_limits fl fs 1))
  unfolding set_v1_memory no_limits has_memory_limit has_memory_high
  set_v1_memory-IsValid none h = no_limits-IsValid 1
  set_v1_memory-IsValid (some n) h = record { hard = h; high = omega arith; effective = inr refl }

  read_controller-Yields :
      {A : Type 0} {P : Option A → Type 0} (o : Option Bytes) (base : Bytes)
      (follow : Bytes → Result CgroupError (Option A))
      → P none
      → ((d : Bytes) → Yields P (follow d))
      → Yields P (read_controller fl fs o base follow)
  unfolding read_controller
  read_controller-Yields none base follow h k = Yields-ok none h
  read_controller-Yields (some rel) base follow h k =
      Yields-if (not (is_empty rel) && cgroup_v1_controller_available fs base) _ _
        (Yields-after (resolve_target_directory fs base rel) follow k) (Yields-ok none h)

  read_cgroup_v2-IsValid : (root rel : Bytes) → Yields IsValid (read_cgroup_v2 fl fs root rel)
  unfolding read_cgroup_v2
  read_cgroup_v2-IsValid root rel = Yields-after (resolve_target_directory fs root rel) _ λ target.
      Yields-bind (traverse_cgroup_v2_memory fs target root) _
        (traverse_v2-AreBounds fs target root)
        λ b h.
          Yields-after (traverse_cgroup_v2_cpu fl fs target root) _
            λ q. Yields-ok _ (set_quota-IsValid q (limits_v2 fl fs b) (limits_v2-IsValid b h))

  read_v1_controllers-IsValid :
      (root : Bytes) (mem cpu : Option Bytes)
      → Yields IsValid (read_v1_controllers fl fs root mem cpu)
  unfolding read_v1_controllers
  read_v1_controllers-IsValid root mem cpu =
      let base = resolve_cgroup_v1_mem_base fs root in
      let cpu_base = resolve_cgroup_v1_cpu_base fs root in
      Yields-bind (read_controller fl fs mem base (traverse_cgroup_v1_memory fs base)) _
        (read_controller-Yields {P = IsBound} mem base _ tt (traverse_v1-IsBound fs base))
        λ b h.
          Yields-after (read_controller fl fs cpu cpu_base (traverse_cgroup_v1_cpu fl fs cpu_base))
            _ λ q. Yields-ok _ (set_quota-IsValid q _ (set_v1_memory-IsValid b h))

  read_cgroup_v1-IsValid :
      (root : Bytes) (paths : List (Bytes × Bytes))
      → Yields IsValid (read_cgroup_v1 fl fs root paths)
  unfolding read_cgroup_v1
  read_cgroup_v1-IsValid root paths = elim (Option-cases (find_path (codes "memory") paths)) [
    | inr (path, e) ↦
        rw (read_cgroup_v1, e) (read_v1_controllers-IsValid root (some path) (cpu_path fl fs paths))
    | inl e ↦ elim (Option-cases (cpu_path fl fs paths)) [
      | inr (path, k) ↦
          rw (read_cgroup_v1, e, k) (read_v1_controllers-IsValid root none (some path))
      | inl k ↦ rw (read_cgroup_v1, e, k) (Yields-ok _ (no_limits-IsValid 0))
    ]
  ]

  read_limits_at-IsValid :
      (root : Bytes) (m : Membership) → Yields IsValid (read_limits_at fl fs root m)
  unfolding read_limits_at
  read_limits_at-IsValid root m =
      Yields-if _ _ _
        (Yields-if (not m.has_v2) _ _ (Yields-ok _ (no_limits-IsValid 0))
          (read_cgroup_v2-IsValid root m.v2_path))
        (Yields-if _ _ _ (read_cgroup_v1-IsValid root m.v1_paths)
          (Yields-ok _ (no_limits-IsValid 0)))

  -- The limits that are read are valid: their bytes are at least 0, and the effective bytes are unset or those of the
  -- least finite bound.
  pub read_limits_custom-IsValid :
      (root proc : Bytes) (l : Limits F) → read_limits_custom fl fs root proc ≡ ok l → IsValid l
  unfolding read_limits_custom
  read_limits_custom-IsValid root proc l e =
      let read : Yields IsValid (read_limits_custom fl fs root proc) =
        Yields-after (reject_if (not (exists fs (fs.clean root))) mount_inaccessible) _ λ u.
          Yields-after (parse_proc_cgroup fs proc) _
            λ m. read_limits_at-IsValid (fs.clean root) m in
      read.of l e
