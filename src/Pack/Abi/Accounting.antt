-- ===== src/Pack/Abi/Accounting.antt =====
-- internal/pack/abi.go: the methods of `ArtifactMetadataAccounting` and of `inputAccounting`. A limit of 0
-- stands for the default.
use microfat.Base.{ℕ, ◌-◌, Bool, false, ◌||◌, Option, none, some, ltb, leb, ◌==◌, if◌then◌else◌}
use microfat.Words.{add64}
use microfat.Pack.Abi.{
  ArtifactAccounting, InputAccounting, Act, resource_limit, modify, reject_when, ◌>>◌,
  max_metadata_bytes_per_input, max_abi_string_bytes_per_input, max_version_records_per_input,
  max_artifact_metadata_bytes, max_uint64,
}

-- The test of `check`, on a limit, what is used and what is asked for.
abbrev pub exceeds : ℕ → ℕ → ℕ → Bool
exceeds limit used n = ltb limit n || ltb (limit - n) used

-- `limit == 0` means the default.
abbrev pub limit_or : ℕ → ℕ → ℕ
limit_or limit default = if limit == 0 then default else limit

-- What is left of a limit, and an amount given back.
abbrev pub left_of : ℕ → ℕ → ℕ
left_of limit used = if leb limit used then 0 else limit - used

abbrev pub give_back : ℕ → ℕ → ℕ
give_back used n = if ltb used n then 0 else used - n

-- The pointer to the shared account may be nil.
unfoldable pub new_artifact_accounting : ℕ → ArtifactAccounting
new_artifact_accounting max_bytes = record {
  max_bytes = limit_or max_bytes max_artifact_metadata_bytes;
  used_bytes = 0;
}

unfoldable pub shared_exceeds : Option ArtifactAccounting → ℕ → Bool
shared_exceeds none n = false
shared_exceeds (some a) n = exceeds a.max_bytes a.used_bytes n

unfoldable pub shared_commit : Option ArtifactAccounting → ℕ → Option ArtifactAccounting
shared_commit none n = none
shared_commit (some a) n = some (record a { used_bytes = add64 a.used_bytes n })

unfoldable pub shared_remaining : Option ArtifactAccounting → ℕ
shared_remaining none = max_uint64
shared_remaining (some a) = left_of (limit_or a.max_bytes max_artifact_metadata_bytes) a.used_bytes

unfoldable pub shared_refund : Option ArtifactAccounting → ℕ → Option ArtifactAccounting
shared_refund none n = none
shared_refund (some a) n = some (record a { used_bytes = give_back a.used_bytes n })

-- The limits that an inspection runs under.
abbrev pub metadata_limit : InputAccounting → ℕ
metadata_limit s = limit_or s.max_metadata_bytes max_metadata_bytes_per_input

abbrev pub string_limit : InputAccounting → ℕ
string_limit s = limit_or s.max_string_bytes max_abi_string_bytes_per_input

abbrev pub string_scan_limit : InputAccounting → ℕ
string_scan_limit s = limit_or s.max_string_scan_bytes (string_limit s)

abbrev pub version_record_limit : InputAccounting → ℕ
version_record_limit s = limit_or s.max_version_records max_version_records_per_input

unfoldable pub check_metadata : ℕ → Act Unit
check_metadata n = do
  reject_when (λ s. exceeds (metadata_limit s) s.metadata_bytes_read n) resource_limit
  reject_when (λ s. shared_exceeds s.shared n) resource_limit

unfoldable pub charge_metadata : ℕ → Act Unit
charge_metadata n = do
  check_metadata n
  modify (λ s. record s {
    metadata_bytes_read = add64 s.metadata_bytes_read n;
    shared = shared_commit s.shared n;
  })

unfoldable pub remaining_metadata_budget : InputAccounting → ℕ
remaining_metadata_budget s = left_of (metadata_limit s) s.metadata_bytes_read

unfoldable pub check_string_scan : ℕ → Act Unit
check_string_scan n = do
  reject_when (λ s. exceeds (string_scan_limit s) s.string_scan_bytes_read n) resource_limit

unfoldable pub check_and_charge_string_scan : ℕ → Act Unit
check_and_charge_string_scan n = do
  check_string_scan n
  check_metadata n
  modify (λ s. record s {
    string_scan_bytes_read = add64 s.string_scan_bytes_read n;
    metadata_bytes_read = add64 s.metadata_bytes_read n;
    shared = shared_commit s.shared n;
  })

unfoldable pub remaining_string_scan_budget : InputAccounting → ℕ
remaining_string_scan_budget s = left_of (string_scan_limit s) s.string_scan_bytes_read

unfoldable pub refund_all_string_scan : ℕ → Act Unit
refund_all_string_scan n = modify (λ s. record s {
  string_scan_bytes_read = give_back s.string_scan_bytes_read n;
  metadata_bytes_read = give_back s.metadata_bytes_read n;
  shared = shared_refund s.shared n;
})

unfoldable pub charge_string : ℕ → Act Unit
charge_string n = do
  reject_when (λ s. exceeds (string_limit s) s.retained_string_bytes n) resource_limit
  modify (λ s. record s { retained_string_bytes = add64 s.retained_string_bytes n })

unfoldable pub charge_version_record : Act Unit
charge_version_record = do
  reject_when (λ s. leb (version_record_limit s) s.version_records) resource_limit
  modify (λ s. record s { version_records = add64 s.version_records 1 })
