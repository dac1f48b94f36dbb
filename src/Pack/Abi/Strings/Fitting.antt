-- ===== src/Pack/Abi/Strings/Fitting.antt =====
-- `scanBoundedCString`: amounts that fit the budgets, and what a charge leaves.
use microfat.Base.{ℕ, ◌+◌, ◌^◌, ◌≤◌, ◌<◌, ◌≡◌, refl, false, Option, none, some, arith}
use microfat.Result.{ok}
use microfat.Pack.Abi.{InputAccounting, ArtifactAccounting, lift, fail_if, ◌>>=◌}
use microfat.Pack.Abi.Accounting.{
  exceeds, left_of, shared_exceeds, shared_commit, shared_remaining, metadata_limit,
  string_scan_limit, remaining_metadata_budget, remaining_string_scan_budget, check_metadata,
  check_string_scan, check_and_charge_string_scan,
}
use microfat.Words.{add64}
use microfat.Pack.Abi.Safe.{Within, SharedWithin}
use microfat.Pack.Abi.Safe.Charges.{scan_fits-limit, metadata_fits-limit}
use microfat.Pack.Abi.Strings.{to_charge}
use microfat.Pack.Abi.Strings.Scan.{Fits, charged}

-- What fits leaves that much of every budget, and less fits too.
exceeds_le :
    (limit used n k : ℕ) → exceeds limit used n ≡ false → k ≤ n → exceeds limit used k ≡ false
exceeds_le limit used n k h le = ground arith

shared_exceeds_le :
    (o : Option ArtifactAccounting) (n k : ℕ)
    → shared_exceeds o n ≡ false
    → k ≤ n
    → shared_exceeds o k ≡ false
unfolding shared_exceeds
shared_exceeds_le none n k h le = refl
shared_exceeds_le (some a) n k h le = exceeds_le a.max_bytes a.used_bytes n k h le

pub Fits-le : (s : InputAccounting) (n k : ℕ) → Fits s n → k ≤ n → Fits s k
Fits-le s n k (a, b, c) le = (
  exceeds_le (string_scan_limit s) s.string_scan_bytes_read n k a le,
  exceeds_le (metadata_limit s) s.metadata_bytes_read n k b le,
  shared_exceeds_le s.shared n k c le,
)

left_of_le : (limit used n : ℕ) → exceeds limit used n ≡ false → n ≤ left_of limit used
left_of_le limit used n h = ground arith

shared_remaining_le :
    (o : Option ArtifactAccounting) (n : ℕ)
    → shared_exceeds o n ≡ false
    → 0 < n
    → n ≤ 64
    → n ≤ shared_remaining o
unfolding shared_exceeds shared_remaining
shared_remaining_le none n h pos small = omega arith
shared_remaining_le (some a) n h pos small = ground arith

pub to_charge_full :
    (want : ℕ) (s : InputAccounting) → 0 < want → want ≤ 64 → Fits s want → to_charge want s ≡ want
unfolding to_charge remaining_metadata_budget remaining_string_scan_budget
to_charge_full want s pos small (a, b, c) = omega (
  arith,
  left_of_le (string_scan_limit s) s.string_scan_bytes_read want a,
  left_of_le (metadata_limit s) s.metadata_bytes_read want b,
  shared_remaining_le s.shared want c pos small,
)

pub charge-Fits :
    (n : ℕ) (s : InputAccounting)
    → Fits s n
    → check_and_charge_string_scan n s ≡ (ok tt, charged s n)
unfolding check_and_charge_string_scan check_string_scan check_metadata ◌>>=◌ fail_if lift
charge-Fits n s (a, b, c) = rw (a, b, c) refl

-- What a charge leaves still fits.
exceeds-add64 :
    (limit used k n : ℕ)
    → limit < 2 ^ 64
    → exceeds limit used (k + n) ≡ false
    → exceeds limit (add64 used k) n ≡ false
exceeds-add64 limit used k n small h = ground arith

shared_exceeds-commit :
    (o : Option ArtifactAccounting) (k n : ℕ)
    → SharedWithin o
    → shared_exceeds o (k + n) ≡ false
    → shared_exceeds (shared_commit o k) n ≡ false
unfolding shared_exceeds shared_commit
shared_exceeds-commit none k n w h = refl
shared_exceeds-commit (some a) k n w h = exceeds-add64 a.max_bytes a.used_bytes k n w.1 h

pub Fits-charged :
    (s : InputAccounting) (k n : ℕ) → Within s → Fits s (k + n) → Fits (charged s k) n
Fits-charged s k n w (a, b, c) = (
  exceeds-add64 (string_scan_limit s) s.string_scan_bytes_read k n (scan_fits-limit s w) a,
  exceeds-add64 (metadata_limit s) s.metadata_bytes_read k n (metadata_fits-limit s w) b,
  shared_exceeds-commit s.shared k n w.shared_within c,
)
