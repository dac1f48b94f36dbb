-- ===== src/Codec/Admission/Bounds.antt =====
-- The workers and the memory of the encoders.
use Prim.Native.Nat.{min}
use native.Mathlib.Decide.{dec_lt}
use microfat.Base.{
  ℕ, ◌+◌, ◌-◌, ◌*◌, ◌/◌, ◌≤◌, ◌<◌, ◌≡◌, ◌⊎◌, refl, true, false, ◌||◌, arith, Bool-cases, inl, inr,
  if◌then◌else◌,
}
use microfat.Words.{IsInt64, IsNonneg, lt64, le64}
use microfat.Words.Signed.{div64, min64}
use microfat.Codec.Admission.{
  CodecResources, lz4_default_block_size, lz4_bytes_per_worker, lz4_headroom_reserve_bytes,
  lz4_workers, lz4_blocks, lz4_available, low_memory_single_thread_ceiling, compute_lz4_concurrency,
  lz4_encoder_workspace_bytes, single_thread_concurrency,
}

lz4_workers-range :
    (cpus blocks : ℕ)
    → IsNonneg cpus
    → IsInt64 blocks
    → let n = lz4_workers cpus blocks in
      (1 ≤ n) × (n ≤ 8) × (1 < n → n ≤ cpus) × (1 < n → (n ≤ blocks) × IsNonneg blocks)
unfolding lz4_workers
lz4_workers-range cpus blocks h i =
    (ground arith, ground arith, λ k. ground (arith, k), λ k. ground (arith, k))

-- The bytes that are available are exact where a worker has its memory.
lz4_available-exact :
    (payload_len memory_bytes : ℕ)
    → IsNonneg payload_len
    → IsNonneg memory_bytes
    → lt64 memory_bytes low_memory_single_thread_ceiling ≡ false
    → lt64 (lz4_available payload_len memory_bytes) lz4_bytes_per_worker ≡ false
    → IsNonneg (lz4_available payload_len memory_bytes)
      × (payload_len + lz4_headroom_reserve_bytes + lz4_available payload_len memory_bytes
          ≡ memory_bytes)
unfolding lz4_available
lz4_available-exact payload_len memory_bytes h i e k = (ground arith, ground arith)

admitted-fits :
    (cpus avail : ℕ)
    → IsNonneg cpus
    → IsNonneg avail
    → let n = min64 cpus (div64 avail lz4_bytes_per_worker) in
      IsNonneg n × (n ≤ cpus) × (n * lz4_bytes_per_worker ≤ avail)
unfolding div64
admitted-fits cpus avail h i = (ground arith, ground arith, ground arith)

lz4_blocks-IsInt64 : (payload_len : ℕ) → IsNonneg payload_len → IsInt64 (lz4_blocks payload_len)
unfolding lz4_blocks div64
lz4_blocks-IsInt64 payload_len h = ground arith

-- The number of workers that is admitted with the resources.
pub record IsAdmitted (payload_len : ℕ) (res : CodecResources) (n : ℕ) : Type 0 where
  pub least : 1 ≤ n
  pub most : n ≤ 8
  pub processors : 1 < n → n ≤ res.effective_cpus
  pub blocks : 1 < n → (n ≤ lz4_blocks payload_len) × IsNonneg (lz4_blocks payload_len)
  pub memory :
      1 < n
      → res.has_memory_cap ≡ true
      → payload_len + lz4_headroom_reserve_bytes + n * lz4_bytes_per_worker ≤ res.memory_bytes

one-IsAdmitted : (payload_len : ℕ) (res : CodecResources) → IsAdmitted payload_len res 1
one-IsAdmitted payload_len res = record {
  least = omega arith;
  most = omega arith;
  processors = λ k. absurd (omega (arith, k));
  blocks = λ k. absurd (omega (arith, k));
  memory = λ k l. absurd (omega (arith, k));
}

capped-IsAdmitted :
    (payload_len : ℕ) (res : CodecResources)
    → IsNonneg payload_len
    → IsNonneg res.effective_cpus
    → IsNonneg res.memory_bytes
    → let avail = lz4_available payload_len res.memory_bytes in
      IsAdmitted payload_len res (
        if lt64 res.memory_bytes low_memory_single_thread_ceiling || lt64 avail lz4_bytes_per_worker
        then 1
        else lz4_workers
            (min64 res.effective_cpus (div64 avail lz4_bytes_per_worker))
            (lz4_blocks payload_len))
capped-IsAdmitted payload_len res h i j =
    let avail = lz4_available payload_len res.memory_bytes in
    let admitted = min64 res.effective_cpus (div64 avail lz4_bytes_per_worker) in
    elim (Bool-cases
      (lt64 res.memory_bytes low_memory_single_thread_ceiling || lt64 avail lz4_bytes_per_worker)) [
        | inl low ↦ rw low (one-IsAdmitted payload_len res)
        | inr enough ↦
            let (nonneg, exact) =
              lz4_available-exact payload_len res.memory_bytes h j (ground (arith, enough))
                (ground (arith, enough)) in
            let (x, y, z) = admitted-fits res.effective_cpus avail i nonneg in
            let (a, b, c, d) =
              lz4_workers-range admitted (lz4_blocks payload_len) x
                (lz4_blocks-IsInt64 payload_len h) in
            rw enough (record {
              least = a;
              most = b;
              processors = λ k. omega (arith, c k, y);
              blocks = d;
              memory = λ k l. omega (arith, c k, z, exact);
            })
      ]

-- The workers of an encoder are from 1 to 8; where there is more than one there are no more than the processors and
-- the blocks, and under a memory limit the payload, the reserve and the bytes of every worker fit in the limit.
pub compute_lz4_concurrency-IsAdmitted :
    (payload_len : ℕ) (res : CodecResources)
    → IsNonneg payload_len
    → IsNonneg res.effective_cpus
    → IsNonneg res.memory_bytes
    → IsAdmitted payload_len res (compute_lz4_concurrency payload_len res)
unfolding compute_lz4_concurrency
compute_lz4_concurrency-IsAdmitted payload_len res h i j =
    let one = one-IsAdmitted payload_len res in
    let block_count = lz4_blocks-IsInt64 payload_len h in
    elim (Bool-cases (
      le64 payload_len lz4_default_block_size
      || le64 res.effective_cpus single_thread_concurrency)) [
        | inl small ↦ rw small one
        | inr large ↦ elim (Bool-cases res.has_memory_cap) [
          | inr free ↦
              let (a, b, c, d) =
                lz4_workers-range res.effective_cpus (lz4_blocks payload_len) i block_count in
              simp (large, free)
                (record {
                  least = a;
                  most = b;
                  processors = c;
                  blocks = d;
                  memory = λ k l. cc (l, free);
                })
          | inl capped ↦ simp (large, capped) (capped-IsAdmitted payload_len res h i j)
        ]
      ]

small-one :
    (payload_len : ℕ) (res : CodecResources)
    → IsNonneg payload_len
    → payload_len ≤ lz4_default_block_size
    → compute_lz4_concurrency payload_len res ≡ 1
unfolding compute_lz4_concurrency
small-one payload_len res h k =
    let e : le64 payload_len lz4_default_block_size ≡ true = ground (arith, k) in rw e refl

-- The workspace is one worker's, or one for each of the blocks in flight and one more.
workspace-cases :
    (payload_len : ℕ)
    → IsNonneg payload_len
    → ((payload_len ≤ lz4_default_block_size)
        × (lz4_encoder_workspace_bytes payload_len ≡ lz4_bytes_per_worker))
      ⊎ ((lz4_default_block_size < payload_len)
          × (lz4_encoder_workspace_bytes payload_len
              ≡ (min ((payload_len - 1) / lz4_default_block_size + 1) 9 + 1)
                * lz4_bytes_per_worker))
unfolding lz4_encoder_workspace_bytes div64
workspace-cases payload_len h = ground arith

blocks-exact :
    (payload_len : ℕ)
    → lz4_default_block_size < payload_len
    → IsNonneg payload_len
    → IsNonneg (lz4_blocks payload_len)
    → lz4_blocks payload_len ≤ (payload_len - 1) / lz4_default_block_size + 1
unfolding lz4_blocks div64
blocks-exact payload_len k h i = ground arith

covers :
    (payload_len n : ℕ)
    → IsNonneg payload_len
    → 1 ≤ n
    → n ≤ 8
    → (1 < n → (n ≤ lz4_blocks payload_len) × IsNonneg (lz4_blocks payload_len))
    → (payload_len ≤ lz4_default_block_size → n ≡ 1)
    → (n * lz4_bytes_per_worker ≤ lz4_encoder_workspace_bytes payload_len)
      × (lz4_default_block_size < payload_len
          → (n + 1) * lz4_bytes_per_worker ≤ lz4_encoder_workspace_bytes payload_len)
      × (lz4_encoder_workspace_bytes payload_len ≤ 10 * lz4_bytes_per_worker)
covers payload_len n h least most blocks one = elim (workspace-cases payload_len h) [
  | inl (small, e) ↦
      rw e (omega (arith, one small), λ k. absurd (omega (arith, k, small)), omega arith)
  | inr (large, e) ↦ elim (dec_lt 1 n) [
    | yes more ↦
        let (few, nonneg) = blocks more in
        let b = blocks-exact payload_len large h nonneg in
        rw e (omega (arith, few, b, most), λ k. omega (arith, few, b, most), omega arith)
    | no single ↦ rw e (omega (arith, single), λ k. omega (arith, single), omega arith)
  ]
]

-- The workspace covers the workers and, for more than one block, one block more, whatever the resources are; it is at
-- most that of ten blocks.
pub lz4_encoder_workspace_bytes-covers :
    (payload_len : ℕ) (res : CodecResources)
    → IsNonneg payload_len
    → IsNonneg res.effective_cpus
    → IsNonneg res.memory_bytes
    → let n = compute_lz4_concurrency payload_len res in
      let bytes = lz4_encoder_workspace_bytes payload_len in
      (n * lz4_bytes_per_worker ≤ bytes)
      × (lz4_default_block_size < payload_len → (n + 1) * lz4_bytes_per_worker ≤ bytes)
      × (bytes ≤ 10 * lz4_bytes_per_worker)
lz4_encoder_workspace_bytes-covers payload_len res h i j =
    let a = compute_lz4_concurrency-IsAdmitted payload_len res h i j in
    covers payload_len (compute_lz4_concurrency payload_len res) h a.least a.most a.blocks
      (small-one payload_len res h)
