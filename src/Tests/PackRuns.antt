-- ===== src/Tests/PackRuns.antt =====
-- Runs of internal/codec/admission.go and internal/pack/prewarm_plan.go.
use microfat.Base.{
  ℕ, ◌+◌, ◌*◌, ◌≤◌, ◌<◌, ◌≡◌, ◌↔◌, refl, true, false, Option, some, none, List, [], ◌∷◌, arith,
  replicate, inr, if◌then◌else◌,
}
use Prim.Native.String.{String}
use microfat.Text.{Bytes, codes, bytes_eq, to_lower, lower_byte}
use microfat.Result.{ok}
use microfat.Words.{IsNonneg}
use microfat.Cgroup.ByteSize.{max_int64}
use microfat.Cgroup.Memory.{Limits, effective_memory_limit, has_memory_limit, has_memory_high}
use microfat.Cgroup.Memory.Effective.{IsValid, ceiling}
use microfat.Codec.Admission.{
  CodecResources, compute_lz4_concurrency, lz4_encoder_workspace_bytes, lz4_bytes_per_worker,
  lz4_default_block_size, resolve_codec_resources_with,
}
use microfat.Codec.Admission.Bounds.{
  IsAdmitted, compute_lz4_concurrency-IsAdmitted, lz4_encoder_workspace_bytes-covers,
}
use microfat.Codec.Admission.Resources.{IsCapped, resolve_codec_resources_with-IsCapped}
use microfat.Format.Types.{VariantEntry, Index}
use microfat.Format.Checksum.{validate_checksum, all_hex}
use microfat.Pack.Elf.{Prog, ElfFile, validate_executable_elf}
use microfat.Pack.Elf.Complete.{IsExecutable, validate_executable_elf_iff}
use microfat.Pack.Prewarm.{
  PrewarmPlan, Observation, observed_valid, observed_missing, plan_prewarm_binary,
  select_prewarm_variants, over_limit, target_set, select_loop, admit, add_identity,
  add_prewarm_bytes, find, member, plan_entries, read_prewarm_dictionary, start_planning,
}
use microfat.Pack.Prewarm.Accounting.{unique_bytes, accounted}
use microfat.Pack.Prewarm.Planned.{plan_prewarm_binary-accounted}

-- Six processors and half a gibibyte.
abbrev sample_resources : CodecResources
sample_resources = record { effective_cpus = 6; memory_bytes = 536870912; has_memory_cap = true }

compute_lz4_concurrency-IsAdmitted_example :
    IsAdmitted 20971520 sample_resources (compute_lz4_concurrency 20971520 sample_resources)
compute_lz4_concurrency-IsAdmitted_example =
    compute_lz4_concurrency-IsAdmitted 20971520 sample_resources (omega arith) (omega arith)
      (omega arith)

lz4_encoder_workspace_bytes-covers_example :
    let n = compute_lz4_concurrency 20971520 sample_resources in
    let bytes = lz4_encoder_workspace_bytes 20971520 in
    (n * lz4_bytes_per_worker ≤ bytes)
    × (lz4_default_block_size < 20971520 → (n + 1) * lz4_bytes_per_worker ≤ bytes)
    × (bytes ≤ 10 * lz4_bytes_per_worker)
lz4_encoder_workspace_bytes-covers_example =
    lz4_encoder_workspace_bytes-covers 20971520 sample_resources (omega arith) (omega arith)
      (omega arith)

-- Two processors and a quarter of a gibibyte.
abbrev container : Limits ℕ
container = record {
  retained_executable_bytes = 0;
  cgroup_version = 1;
  memory_limit_bytes = 268435456;
  memory_high_bytes = 0;
  effective_memory_limit_bytes = 268435456;
  memory_limit_finite = true;
  memory_high_finite = false;
  cpu_quota = 200;
  cpus = 2;
}

container-IsValid : IsValid container
unfolding has_memory_limit has_memory_high
container-IsValid = record { hard = omega arith; high = omega arith; effective = inr refl }

resolve_codec_resources_with-IsCapped_example :
    let r = resolve_codec_resources_with 8 1073741824 (ok container) in
    (1 ≤ r.effective_cpus)
    × (1 < r.effective_cpus → r.effective_cpus ≤ 8)
    × (0 < container.cpus → IsNonneg container.cpus → r.effective_cpus ≤ container.cpus)
    × (1073741824 < max_int64 → IsCapped 1073741824 r)
    × ((effective_memory_limit container).1 ≡ true → IsCapped (ceiling container) r)
resolve_codec_resources_with-IsCapped_example =
    resolve_codec_resources_with-IsCapped 8 1073741824 container (omega arith) (omega arith)
      container-IsValid

abbrev variant : String → ℕ → ℕ → VariantEntry
variant level digit size = record {
  level = codes level;
  offset = 0;
  compressed_size = 10;
  uncompressed_size = size;
  sha256 = replicate 64 digit;
  compression = codes "zstd";
}

-- Three variants, two of which have the same payload, with its digest in the other case.
abbrev sample_index : Index
sample_index = record {
  version = 2;
  app_name = codes "app";
  target_os = codes "linux";
  target_arch = codes "amd64";
  created_unix = 0;
  dictionary_offset = 0;
  dictionary_size = 0;
  dictionary_sha256 = [];
  dictionary_id = 0;
  variants = variant "v1" b'a' 100 ∷ variant "v2" b'b' 200 ∷ variant "v3" b'A' 100 ∷ [];
}

-- The cache has the payload of the second variant.
abbrev look : VariantEntry → Observation
look v = record {
  status = if bytes_eq v.level (codes "v2") then observed_valid else observed_missing;
  cached_path = [];
  problem = [];
}

abbrev decoder : Bytes → Option Bytes
decoder name = none

abbrev read_at : ℕ → ℕ → Option Bytes
read_at size offset = none

abbrev sha256_hex : Bytes → Bytes
sha256_hex bytes = []

abbrev planned : PrewarmPlan
planned =
    (plan_entries look decoder
      (variant "v1" b'a' 100 ∷ variant "v2" b'b' 200 ∷ variant "v3" b'a' 100 ∷ [])
      (start_planning 300)).plan

plans : plan_prewarm_binary look decoder read_at sha256_hex sample_index [] (some 300) ≡ ok planned
unfolding plan_prewarm_binary select_prewarm_variants target_set select_loop admit add_identity
    add_prewarm_bytes find member over_limit read_prewarm_dictionary validate_checksum all_hex
    bytes_eq to_lower lower_byte
plans = refl

plan_prewarm_binary-accounted_example :
    (selected : List VariantEntry) × (select_prewarm_variants sample_index [] (some 300)
      ≡ ok (selected, planned.unique_payload_bytes))
    × (planned.unique_payload_bytes ≡ unique_bytes [] selected)
    × (accounted planned ≡ planned.unique_payload_bytes)
    × (over_limit (some 300) planned.unique_payload_bytes ≡ false)
plan_prewarm_binary-accounted_example =
    plan_prewarm_binary-accounted look decoder read_at sha256_hex sample_index [] (some 300) planned
      plans

abbrev sample_text : Prog
sample_text = record {
  prog_type = 1;
  flags = 5;
  off = 0;
  vaddr = 4096;
  filesz = 2048;
  memsz = 2048;
  align = 4096;
}

-- A file of 4096 bytes with its text at 0x1000, and a segment that is not loadable.
abbrev sample_elf : ElfFile
sample_elf = record {
  file_type = 3;
  entry = 4128;
  progs = sample_text ∷ record sample_text { prog_type = 4; memsz = 0 } ∷ [];
}

validate_executable_elf_iff_example :
    (validate_executable_elf sample_elf 4096 ≡ ok tt) ↔ IsExecutable sample_elf 4096
validate_executable_elf_iff_example =
    validate_executable_elf_iff sample_elf 4096 (omega arith) (omega arith) (
      (omega arith, omega arith, omega arith, omega arith, omega arith),
      ((omega arith, omega arith, omega arith, omega arith, omega arith), tt),
    )
