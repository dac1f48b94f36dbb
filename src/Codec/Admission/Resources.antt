-- ===== src/Codec/Admission/Resources.antt =====
-- The resources of the process: what the runtime uses, within the limits of the container.
use microfat.Base.{
  ℕ, ◌≤◌, ◌<◌, ◌≡◌, refl, ap, ◌∙◌, Bool, true, false, not, ◌&&◌, ◌||◌, arith, Bool-cases, inl, inr,
}
use microfat.Words.{IsInt64, IsNonneg, lt64, is_neg}
use microfat.Words.Signed.{max64}
use microfat.Result.{ok}
use microfat.Cgroup.ByteSize.{max_int64}
use microfat.Cgroup.Memory.{Limits, minimum_cpus, effective_memory_limit}
use microfat.Cgroup.Memory.Effective.{IsValid, ceiling, least-IsNonneg}
use microfat.Codec.Admission.{
  CodecResources, runtime_cap, limit_cpus, limit_memory, limit_resources,
  resolve_codec_resources_with,
}

-- A memory cap that is no more than a bound.
pub record IsCapped (bound : ℕ) (r : CodecResources) : Type 0 where
  pub capped : r.has_memory_cap ≡ true
  pub within : r.memory_bytes ≤ bound
  pub nonneg : IsNonneg r.memory_bytes

runtime_cap-IsCapped :
    (go_mem_limit : ℕ) (r : CodecResources)
    → go_mem_limit < max_int64
    → IsCapped go_mem_limit (runtime_cap go_mem_limit r)
unfolding runtime_cap
runtime_cap-IsCapped go_mem_limit r h =
    let e : (not (is_neg go_mem_limit) && lt64 go_mem_limit max_int64) ≡ true = ground (arith, h) in
    rw e (record { capped = refl; within = omega arith; nonneg = omega (arith, h) })

runtime_cap-keeps :
    (go_mem_limit : ℕ) (r : CodecResources)
    → IsNonneg r.memory_bytes
    → ((runtime_cap go_mem_limit r).effective_cpus ≡ r.effective_cpus)
      × IsNonneg (runtime_cap go_mem_limit r).memory_bytes
unfolding runtime_cap
runtime_cap-keeps go_mem_limit r h = (ground arith, ground (arith, h))

lowered : (finite cap less : Bool) → cap ≡ true → (finite && (not cap || less)) ≡ true → less ≡ true
lowered finite cap less c e = ground (arith, c, e)

lt64-le : (a b bound : ℕ) → IsNonneg a → IsNonneg b → b ≤ bound → lt64 a b ≡ true → a ≤ bound
lt64-le a b bound h i j e = ground (arith, e)

kept-cap :
    (a b : ℕ) (finite cap : Bool)
    → finite ≡ true
    → IsNonneg a
    → IsNonneg b
    → (finite && (not cap || lt64 a b)) ≡ false
    → (cap ≡ true) × (b ≤ a)
kept-cap a b finite cap f h i e = (ground (arith, f, e), ground (arith, f, e))

module _ {F : Type 0} where
  -- Another cap does not lift one.
  limit_memory-IsCapped :
      (l : Limits F) (bound : ℕ) (r : CodecResources)
      → IsValid l
      → IsCapped bound r
      → IsCapped bound (limit_memory l r)
  unfolding limit_memory
  limit_memory-IsCapped l bound r v c =
      let (same, low) = least-IsNonneg l v in
      elim (Bool-cases (
        (effective_memory_limit l).1
        && (not r.has_memory_cap || lt64 (effective_memory_limit l).0 r.memory_bytes))) [
          | inr kept ↦ simp kept c
          | inl taken ↦
              let less = lowered (effective_memory_limit l).1 r.has_memory_cap _ c.capped taken in
              let small : IsNonneg (effective_memory_limit l).0 = rw same low in
              let under : (effective_memory_limit l).0 ≤ bound =
                lt64-le (effective_memory_limit l).0 r.memory_bytes bound small c.nonneg c.within
                  less in
              simp taken (record { capped = refl; within = under; nonneg = small })
        ]

  -- The container's finite limit is a cap.
  limit_memory-finite :
      (l : Limits F) (r : CodecResources)
      → IsValid l
      → (effective_memory_limit l).1 ≡ true
      → IsNonneg r.memory_bytes
      → IsCapped (ceiling l) (limit_memory l r)
  unfolding limit_memory
  limit_memory-finite l r v finite h =
      let (same, low) = least-IsNonneg l v in
      elim (Bool-cases (
        (effective_memory_limit l).1
        && (not r.has_memory_cap || lt64 (effective_memory_limit l).0 r.memory_bytes))) [
          | inr kept ↦
              let (capped, le) =
                kept-cap (effective_memory_limit l).0 r.memory_bytes (effective_memory_limit l).1
                  r.has_memory_cap finite (rw same low) h kept in
              simp kept (record { capped = capped; within = rw (← same) le; nonneg = h })
          | inl taken ↦
              simp taken
                (record { capped = refl; within = rw same (omega arith); nonneg = rw same low })
        ]

  limit_memory-cpus :
      (l : Limits F) (r : CodecResources) → (limit_memory l r).effective_cpus ≡ r.effective_cpus
  unfolding limit_memory
  limit_memory-cpus l r = ground arith

  limit_cpus-range :
      (gomaxprocs : ℕ) (l : Limits F)
      → IsNonneg gomaxprocs
      → IsInt64 l.cpus
      → let n = max64 (limit_cpus (max64 gomaxprocs minimum_cpus) l) minimum_cpus in
        (1 ≤ n) × (1 < n → n ≤ gomaxprocs) × (0 < l.cpus → IsNonneg l.cpus → n ≤ l.cpus)
  unfolding limit_cpus
  limit_cpus-range gomaxprocs l h i =
      (ground arith, λ k. ground (arith, k), λ k m. ground (arith, k, m))

  -- The resources have a processor, and no more than the runtime uses nor than the container has; their memory is
  -- capped by the runtime's limit, where it is one, and by the container's finite limit. The limits were read and are
  -- valid.
  pub resolve_codec_resources_with-IsCapped :
      (gomaxprocs go_mem_limit : ℕ) (l : Limits F)
      → IsNonneg gomaxprocs
      → IsInt64 l.cpus
      → IsValid l
      → let r = resolve_codec_resources_with {F = F} gomaxprocs go_mem_limit (ok l) in
        (1 ≤ r.effective_cpus)
        × (1 < r.effective_cpus → r.effective_cpus ≤ gomaxprocs)
        × (0 < l.cpus → IsNonneg l.cpus → r.effective_cpus ≤ l.cpus)
        × (go_mem_limit < max_int64 → IsCapped go_mem_limit r)
        × ((effective_memory_limit l).1 ≡ true → IsCapped (ceiling l) r)
  unfolding resolve_codec_resources_with limit_resources
  resolve_codec_resources_with-IsCapped gomaxprocs go_mem_limit l h i v =
      let start : CodecResources = record {
        effective_cpus = max64 gomaxprocs minimum_cpus;
        memory_bytes = 0;
        has_memory_cap = false;
      } in
      let capped = runtime_cap go_mem_limit start in
      let (cpus, low) = runtime_cap-keeps go_mem_limit start (omega arith) in
      let shared = record capped { effective_cpus = limit_cpus capped.effective_cpus l } in
      let kept : (limit_memory l shared).effective_cpus
          ≡ limit_cpus (max64 gomaxprocs minimum_cpus) l =
        limit_memory-cpus l shared ∙ ap (λ n. limit_cpus n l) cpus in
      let (a, b, c) = limit_cpus-range gomaxprocs l h i in
      (
        rw kept a,
        rw kept b,
        rw kept c,
        λ k.
            let r = runtime_cap-IsCapped go_mem_limit start k in
            let n =
              limit_memory-IsCapped l go_mem_limit shared v
                (record { capped = r.capped; within = r.within; nonneg = r.nonneg }) in
            record { capped = n.capped; within = n.within; nonneg = n.nonneg },
        λ k.
            let n = limit_memory-finite l shared v k low in
            record { capped = n.capped; within = n.within; nonneg = n.nonneg },
      )
