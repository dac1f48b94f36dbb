-- ===== src/Codec/Admission.antt =====
-- internal/codec/admission.go. An `int` and an `int64` are their bit patterns.
pub mod Bounds
pub mod Resources
use microfat.Base.{
  ℕ, ◌+◌, ◌-◌, ◌*◌, ◌/◌, ◌^◌, ◌%◌, Bool, true, false, not, ◌&&◌, ◌||◌, ◌==◌, ltb, if◌then◌else◌,
}
use microfat.Words.{lt64, le64, add64, sub64, is_neg}
use microfat.Words.Signed.{min64, max64, div64}
use microfat.Result.{Result, ok, err, panic}
use microfat.Cgroup.ByteSize.{max_int64}
use microfat.Cgroup.Paths.{CgroupError}
use microfat.Cgroup.Memory.{Limits, minimum_cpus, effective_memory_limit}

abbrev pub lz4_default_block_size : ℕ
lz4_default_block_size = 4 * 1024 * 1024

abbrev pub max_lz4_block_concurrency : ℕ
max_lz4_block_concurrency = 8

abbrev pub zstd_fastest_single_block_limit : ℕ
zstd_fastest_single_block_limit = 64 * 1024

abbrev pub zstd_default_single_block_limit : ℕ
zstd_default_single_block_limit = 128 * 1024

abbrev pub zstd_pipeline_concurrency : ℕ
zstd_pipeline_concurrency = 2

abbrev pub single_thread_concurrency : ℕ
single_thread_concurrency = 1

abbrev pub low_memory_single_thread_ceiling : ℕ
low_memory_single_thread_ceiling = 256 * 1024 * 1024

abbrev pub lz4_headroom_reserve_bytes : ℕ
lz4_headroom_reserve_bytes = 64 * 1024 * 1024

abbrev pub lz4_bytes_per_worker : ℕ
lz4_bytes_per_worker = 16 * 1024 * 1024

pub record CodecResources : Type 0 where
  pub effective_cpus : ℕ
  pub memory_bytes : ℕ
  pub has_memory_cap : Bool

pub record ZstdEncodePlan : Type 0 where
  pub single_shot : Bool
  pub concurrency : ℕ

-- The limit of the Go runtime, where it is one.
unfoldable pub runtime_cap : ℕ → CodecResources → CodecResources
runtime_cap go_mem_limit r =
    if not (is_neg go_mem_limit) && lt64 go_mem_limit max_int64
    then record r { memory_bytes = go_mem_limit; has_memory_cap = true }
    else r

-- The least of the processors, the blocks and the eight workers, and at least one.
unfoldable pub lz4_workers : ℕ → ℕ → ℕ
lz4_workers cpus blocks =
    max64 (min64 (min64 cpus blocks) max_lz4_block_concurrency) single_thread_concurrency

unfoldable pub lz4_blocks : ℕ → ℕ
lz4_blocks payload_len =
    div64 (sub64 (add64 payload_len lz4_default_block_size) 1) lz4_default_block_size

-- `avail`
unfoldable pub lz4_available : ℕ → ℕ → ℕ
lz4_available payload_len memory_bytes =
    sub64 (sub64 memory_bytes payload_len) lz4_headroom_reserve_bytes

unfoldable pub compute_lz4_concurrency : ℕ → CodecResources → ℕ
compute_lz4_concurrency payload_len res =
    let avail = lz4_available payload_len res.memory_bytes in
    let admitted = min64 res.effective_cpus (div64 avail lz4_bytes_per_worker) in
    if le64 payload_len lz4_default_block_size || le64 res.effective_cpus single_thread_concurrency
    then single_thread_concurrency
    else if not res.has_memory_cap
    then lz4_workers res.effective_cpus (lz4_blocks payload_len)
    else if lt64 res.memory_bytes low_memory_single_thread_ceiling
        || lt64 avail lz4_bytes_per_worker
    then single_thread_concurrency
    else lz4_workers admitted (lz4_blocks payload_len)

unfoldable pub lz4_encoder_workspace_bytes : ℕ → ℕ
lz4_encoder_workspace_bytes payload_len =
    let blocks = add64 (div64 (sub64 payload_len 1) lz4_default_block_size) 1 in
    let in_flight = min64 blocks (max_lz4_block_concurrency + 1) in
    if le64 payload_len lz4_default_block_size
    then lz4_bytes_per_worker
    else (add64 in_flight 1 * lz4_bytes_per_worker) % 2 ^ 64

-- `fastest` is `level == zstd.SpeedFastest`.
unfoldable pub zstd_single_block_limit : Bool → ℕ
zstd_single_block_limit fastest =
    if fastest then zstd_fastest_single_block_limit else zstd_default_single_block_limit

abbrev plan : Bool → ℕ → ZstdEncodePlan
plan single_shot concurrency = record { single_shot = single_shot; concurrency = concurrency }

unfoldable pub compute_zstd_encode_plan : ℕ → Bool → Bool → CodecResources → ZstdEncodePlan
compute_zstd_encode_plan payload_len fastest has_dict res =
    if le64 payload_len 0
    then plan false single_thread_concurrency
    else if lt64 payload_len (zstd_single_block_limit fastest)
    then plan true single_thread_concurrency
    else if le64 res.effective_cpus single_thread_concurrency
    then plan false single_thread_concurrency
    else if not has_dict
        && res.has_memory_cap
        && lt64 res.memory_bytes low_memory_single_thread_ceiling
    then plan false single_thread_concurrency
    else plan false zstd_pipeline_concurrency

-- With the processors that the runtime uses, and what the process may use where it has to be asked.
unfoldable pub resolve_zstd_encode_plan : ℕ → CodecResources → ℕ → Bool → Bool → ZstdEncodePlan
resolve_zstd_encode_plan gomaxprocs res payload_len fastest has_dict =
    if payload_len == 0
    then plan false single_thread_concurrency
    else if lt64 0 payload_len && lt64 payload_len (zstd_single_block_limit fastest)
    then plan true single_thread_concurrency
    else if le64 gomaxprocs single_thread_concurrency
    then plan false single_thread_concurrency
    else compute_zstd_encode_plan payload_len fastest has_dict res

unfoldable pub resolve_lz4_concurrency : ℕ → CodecResources → ℕ → ℕ
resolve_lz4_concurrency gomaxprocs res payload_len =
    if le64 payload_len lz4_default_block_size
    then single_thread_concurrency
    else if le64 gomaxprocs single_thread_concurrency
    then single_thread_concurrency
    else compute_lz4_concurrency payload_len res

module _ {F : Type 0} where
  unfoldable pub limit_cpus : ℕ → Limits F → ℕ
  limit_cpus cpus l = if lt64 0 l.cpus && lt64 l.cpus cpus then l.cpus else cpus

  unfoldable pub limit_memory : Limits F → CodecResources → CodecResources
  limit_memory l r =
      let (bytes, finite) = effective_memory_limit l in
      if finite && (not r.has_memory_cap || lt64 bytes r.memory_bytes)
      then record r { memory_bytes = bytes; has_memory_cap = true }
      else r

  -- What was read of the container is passed over where there was an error.
  unfoldable pub limit_resources : Result CgroupError (Limits F) → CodecResources → CodecResources
  limit_resources (ok l) r =
      limit_memory l (record r { effective_cpus = limit_cpus r.effective_cpus l })
  limit_resources (err e) r = r
  limit_resources panic r = r

  unfoldable pub resolve_codec_resources_with :
      ℕ → ℕ → Result CgroupError (Limits F) → CodecResources
  resolve_codec_resources_with gomaxprocs go_mem_limit read_limits =
      let start : CodecResources = record {
        effective_cpus = max64 gomaxprocs minimum_cpus;
        memory_bytes = 0;
        has_memory_cap = false;
      } in
      let r = limit_resources read_limits (runtime_cap go_mem_limit start) in
      record r { effective_cpus = max64 r.effective_cpus minimum_cpus }
