-- ===== src/Pack/Abi.antt =====
-- internal/pack/abi.go: the budgets of an inspection and the calls that spend them. The calls share one
-- `inputAccounting` by pointer: it is the state of a call, and comes back after an error too. The numbers
-- are `uint64`.
pub mod Accounting
pub mod Safe
pub mod Reading
pub mod Strings
pub mod Headers
pub mod Segments
pub mod Report
pub mod Dynamic
pub mod Versions
pub mod Inspect
pub mod Escape
use microfat.Base.{ℕ, Bool, Option, if◌then◌else◌}
use microfat.Result.{Result, ok, err, panic}

pub data AbiError : Type 0 where
  metadata resource_limit invalid_elf mismatch : AbiError

pub record ArtifactAccounting : Type 0 where
  pub max_bytes : ℕ
  pub used_bytes : ℕ

pub record InputAccounting : Type 0 where
  pub shared : Option ArtifactAccounting
  pub max_metadata_bytes : ℕ
  pub max_string_bytes : ℕ
  pub max_string_scan_bytes : ℕ
  pub max_version_records : ℕ
  pub metadata_bytes_read : ℕ
  pub string_scan_bytes_read : ℕ
  pub retained_string_bytes : ℕ
  pub version_records : ℕ

-- A call on the accounting.
abbrev pub Act : Type 0 → Type 0
Act A = InputAccounting → Result AbiError A × InputAccounting

module _ {A : Type 0} where
  unfoldable pub lift : Result AbiError A → Act A
  lift r s = (r, s)

  abbrev pub pure : A → Act A
  pure a = lift (ok a)

  abbrev pub fail : AbiError → Act A
  fail e = lift (err e)

-- The state, and a value computed from it.
abbrev pub gets : {A : Type 0} → (InputAccounting → A) → Act A
gets f s = (ok (f s), s)

abbrev pub modify : (InputAccounting → InputAccounting) → Act Unit
modify f s = (ok tt, f s)

abbrev pub next :
    {A B : Type 0}
    → Result AbiError A × InputAccounting
    → (A → Act B)
    → Result AbiError B × InputAccounting
next (ok a, s) f = f a s
next (err e, s) f = (err e, s)
next (panic, s) f = (panic, s)

infixl 5 ◌>>=◌ ◌>>◌
unfoldable pub ◌>>=◌ : {A B : Type 0} → Act A → (A → Act B) → Act B
◌>>=◌ m f s = next (m s) f

abbrev pub ◌>>◌ : {B : Type 0} → Act Unit → Act B → Act B
m >> k = m >>= λ _. k

unfoldable pub fail_if : Bool → AbiError → Act Unit
fail_if b e s = (if b then err e else ok tt, s)

-- `if test(acc) { return err }`
abbrev pub reject_when : (InputAccounting → Bool) → AbiError → Act Unit
reject_when test e s = fail_if (test s) e s

-- `const`s of the package.
abbrev pub max_program_headers : ℕ
max_program_headers = 4096

abbrev pub max_section_headers : ℕ
max_section_headers = 65536

abbrev pub max_interpreter_size : ℕ
max_interpreter_size = 4096

abbrev pub max_dynamic_entries : ℕ
max_dynamic_entries = 65536

abbrev pub max_abi_string_bytes_per_input : ℕ
max_abi_string_bytes_per_input = 8388608

abbrev pub max_version_records_per_input : ℕ
max_version_records_per_input = 65536

abbrev pub max_metadata_bytes_per_input : ℕ
max_metadata_bytes_per_input = 33554432

abbrev pub max_artifact_metadata_bytes : ℕ
max_artifact_metadata_bytes = 268435456

abbrev pub max_artifact_report_bytes : ℕ
max_artifact_report_bytes = 67108864

abbrev pub max_uint64 : ℕ
max_uint64 = 18446744073709551615

abbrev pub max_int64 : ℕ
max_int64 = 9223372036854775807
