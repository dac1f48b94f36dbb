-- ===== src/Pack/Abi/Strings/Scan.antt =====
-- `scanBoundedCString`: what a chunk is charged, and what the charge leaves of the budgets.
use microfat.Base.{ℕ, ◌-◌, ◌^◌, ◌≤◌, ◌<◌, ◌≡◌, false, Option, none, some, arith}
use microfat.Words.{add64}
use microfat.Result.{ok}
use microfat.Pack.Abi.{InputAccounting, ArtifactAccounting, fail_if, lift, ◌>>=◌}
use microfat.Pack.Abi.Accounting.{
  exceeds, left_of, shared_exceeds, shared_commit, shared_remaining, remaining_metadata_budget,
  remaining_string_scan_budget, check_string_scan, check_metadata, check_and_charge_string_scan,
  metadata_limit, string_scan_limit,
}
use microfat.Pack.Abi.Safe.{Within, SharedWithin}
use microfat.Pack.Abi.Safe.Charges.{metadata_fits-limit, scan_fits-limit}
use microfat.Pack.Abi.Strings.{to_charge}

-- What a charge that succeeds tells: it fitted each budget, and was taken from each.
abbrev pub charged : InputAccounting → ℕ → InputAccounting
charged s n = record s {
  string_scan_bytes_read = add64 s.string_scan_bytes_read n;
  metadata_bytes_read = add64 s.metadata_bytes_read n;
  shared = shared_commit s.shared n;
}

abbrev pub Fits : InputAccounting → ℕ → Type 0
Fits s n =
    (exceeds (string_scan_limit s) s.string_scan_bytes_read n ≡ false)
    × (exceeds (metadata_limit s) s.metadata_bytes_read n ≡ false)
    × (shared_exceeds s.shared n ≡ false)

pub charge_ok :
    (n : ℕ) (s t : InputAccounting)
    → check_and_charge_string_scan n s ≡ (ok tt, t)
    → Fits s n × (charged s n ≡ t)
unfolding check_and_charge_string_scan check_string_scan check_metadata ◌>>=◌ fail_if lift
charge_ok n s t e = ground arith

-- A byte that fits is left of every budget.
left_of-pos : (limit used : ℕ) → exceeds limit used 1 ≡ false → 0 < left_of limit used
left_of-pos limit used e = ground arith

shared_remaining-pos :
    (o : Option ArtifactAccounting) → shared_exceeds o 1 ≡ false → 0 < shared_remaining o
unfolding shared_exceeds shared_remaining
shared_remaining-pos none e = omega arith
shared_remaining-pos (some a) e = ground arith

pub to_charge-pos : (want : ℕ) (s : InputAccounting) → 0 < want → Fits s 1 → 0 < to_charge want s
unfolding to_charge remaining_metadata_budget remaining_string_scan_budget
to_charge-pos want s h (a, b, c) = omega (
  arith,
  left_of-pos (string_scan_limit s) s.string_scan_bytes_read a,
  left_of-pos (metadata_limit s) s.metadata_bytes_read b,
  shared_remaining-pos s.shared c,
)

left_of-add64 :
    (limit used n : ℕ)
    → limit < 2 ^ 64
    → exceeds limit used n ≡ false
    → left_of limit (add64 used n) ≡ left_of limit used - n
left_of-add64 limit used n h e = ground arith

-- A charge below what was wanted takes all that some budget had left.
shared_used_up :
    (o : Option ArtifactAccounting) (n : ℕ)
    → SharedWithin o
    → shared_exceeds o n ≡ false
    → n ≤ 64
    → shared_remaining o ≡ n
    → shared_remaining (shared_commit o n) ≡ 0
unfolding shared_exceeds shared_remaining shared_commit
shared_used_up none n h e le same = omega arith
shared_used_up (some a) n h e le same = ground arith

remaining-charged :
    (s : InputAccounting) (n : ℕ)
    → Within s
    → Fits s n
    → (remaining_string_scan_budget (charged s n) ≡ remaining_string_scan_budget s - n)
      × (remaining_metadata_budget (charged s n) ≡ remaining_metadata_budget s - n)
unfolding remaining_metadata_budget remaining_string_scan_budget
remaining-charged s n w (a, b, c) = (
  left_of-add64 (string_scan_limit s) s.string_scan_bytes_read n (scan_fits-limit s w) a,
  left_of-add64 (metadata_limit s) s.metadata_bytes_read n (metadata_fits-limit s w) b,
)

pub to_charge_used_up :
    (want n : ℕ) (s : InputAccounting)
    → Within s
    → want ≤ 64
    → to_charge want s ≡ n
    → n < want
    → Fits s n
    → to_charge 1 (charged s n) ≡ 0
unfolding to_charge
to_charge_used_up want n s w small same h (a, b, c) =
    let (r, m) = remaining-charged s n w (a, b, c) in
    ground (arith, r, m, shared_used_up s.shared n w.shared_within c)
