-- ===== src/Pack/Abi/Safe/Charges.antt =====
-- The methods of `inputAccounting` that spend and give back, with what they keep.
use microfat.Base.{
  ℕ, ◌+◌, ◌^◌, ◌≤◌, ◌<◌, ◌≡◌, refl, leb, Bool-cases, inl, inr, false, Option, none, some, arith,
}
use microfat.Words.{add64}
use microfat.Result.{Returns-ok}
use microfat.Pack.Abi.{
  ArtifactAccounting, InputAccounting, Act, resource_limit, reject_when, modify, ◌>>◌, lift, ◌>>=◌,
  fail_if,
}
use microfat.Pack.Abi.Accounting.{
  exceeds, limit_or, give_back, shared_exceeds, shared_commit, shared_refund, metadata_limit,
  string_limit, string_scan_limit, version_record_limit, check_metadata, charge_metadata,
  check_string_scan, check_and_charge_string_scan, refund_all_string_scan, charge_string,
  charge_version_record,
}
use microfat.Pack.Abi.{max_version_records_per_input}
use microfat.Pack.Abi.Safe.{
  Within, SharedWithin, After, Safe, Safe-fail, After-reject, Safe-bind, Safe-reject, shared_limit,
}

-- An amount that passes the check is spent without wrapping around.
pub spend_within :
    (limit used n : ℕ)
    → limit < 2 ^ 64
    → exceeds limit used n ≡ false
    → (add64 used n ≡ used + n) × (used + n ≤ limit)
spend_within limit used n h e = ground arith

shared_commit-within :
    (o : Option ArtifactAccounting) (n : ℕ)
    → SharedWithin o
    → shared_exceeds o n ≡ false
    → SharedWithin (shared_commit o n) × (shared_limit o ≡ shared_limit (shared_commit o n))
unfolding shared_commit shared_exceeds
shared_commit-within none n h e = (tt, refl)
shared_commit-within (some a) n (u, m) e =
    ground (arith, spend_within a.max_bytes a.used_bytes n m e)

shared_refund-within :
    (o : Option ArtifactAccounting) (n : ℕ)
    → SharedWithin o
    → SharedWithin (shared_refund o n) × (shared_limit o ≡ shared_limit (shared_refund o n))
unfolding shared_refund
shared_refund-within none n h = (tt, refl)
shared_refund-within (some a) n (u, m) = ground arith

module _ {A : Type 0} {P : A → Type 0} where
  -- Behind a check the amount is known to fit.
  pub After-check_metadata :
      (n : ℕ) (rest : Act A) (s : InputAccounting)
      → Within s
      → (exceeds (metadata_limit s) s.metadata_bytes_read n ≡ false
          → shared_exceeds s.shared n ≡ false
          → After s P (rest s))
      → After s P ((check_metadata n >> rest) s)
  unfolding check_metadata ◌>>=◌ fail_if lift
  After-check_metadata n rest s w k =
      elim (Bool-cases (exceeds (metadata_limit s) s.metadata_bytes_read n)) [
        | inl bad ↦ rw bad ((Safe-fail resource_limit).of s w)
        | inr good ↦
            rw good (
              After-reject (λ t. shared_exceeds t.shared n) resource_limit rest s w (λ e. k good e))
      ]

  pub After-check_string_scan :
      (n : ℕ) (rest : Act A) (s : InputAccounting)
      → Within s
      → (exceeds (string_scan_limit s) s.string_scan_bytes_read n ≡ false → After s P (rest s))
      → After s P ((check_string_scan n >> rest) s)
  unfolding check_string_scan
  After-check_string_scan n rest s w k =
      After-reject (λ t. exceeds (string_scan_limit t) t.string_scan_bytes_read n) resource_limit
        rest s w k

-- A limit fits 64 bits, its default too.
limit_or_fits :
    (limit default : ℕ) → limit < 2 ^ 64 → default < 2 ^ 64 → limit_or limit default < 2 ^ 64
limit_or_fits limit default h k = ground arith

-- The counters after an update that leaves the limits.
abbrev counted : InputAccounting → ℕ → ℕ → ℕ → ℕ → Option ArtifactAccounting → InputAccounting
counted s read scanned kept records shared = record s {
  metadata_bytes_read = read;
  string_scan_bytes_read = scanned;
  retained_string_bytes = kept;
  version_records = records;
  shared = shared;
}

-- The last update of a call.
After-counted :
    (s : InputAccounting) (read scanned kept records : ℕ) (shared : Option ArtifactAccounting)
    → Within s
    → read ≤ metadata_limit s
    → scanned ≤ string_scan_limit s
    → kept ≤ string_limit s
    → records ≤ version_record_limit s
    → SharedWithin shared × (shared_limit s.shared ≡ shared_limit shared)
    → After s (λ t. Unit) (modify (λ t. counted t read scanned kept records shared) s)
After-counted s read scanned kept records shared w a b c d (e, f) = record {
  within = record {
    metadata_within = a;
    metadata_fits = w.metadata_fits;
    scan_within = b;
    scan_fits = w.scan_fits;
    strings_within = c;
    strings_fit = w.strings_fit;
    records_within = d;
    records_fit = w.records_fit;
    shared_within = e;
  };
  same = record {
    same_metadata = refl;
    same_scan = refl;
    same_strings = refl;
    same_records = refl;
    same_shared = f;
  };
  returns = Returns-ok tt;
  yields = λ x h. tt;
}

module _ (s : InputAccounting) (w : Within s) where
  strings_fit-limit : string_limit s < 2 ^ 64
  strings_fit-limit = limit_or_fits s.max_string_bytes _ w.strings_fit (omega arith)

  pub metadata_fits-limit : metadata_limit s < 2 ^ 64
  metadata_fits-limit = limit_or_fits s.max_metadata_bytes _ w.metadata_fits (omega arith)

  pub scan_fits-limit : string_scan_limit s < 2 ^ 64
  scan_fits-limit = limit_or_fits s.max_string_scan_bytes _ w.scan_fits strings_fit-limit

  spend_metadata :
      (n : ℕ)
      → exceeds (metadata_limit s) s.metadata_bytes_read n ≡ false
      → add64 s.metadata_bytes_read n ≤ metadata_limit s
  spend_metadata n e =
      omega (arith, spend_within (metadata_limit s) s.metadata_bytes_read n metadata_fits-limit e)

  spend_scan :
      (n : ℕ)
      → exceeds (string_scan_limit s) s.string_scan_bytes_read n ≡ false
      → add64 s.string_scan_bytes_read n ≤ string_scan_limit s
  spend_scan n e =
      omega (arith, spend_within (string_scan_limit s) s.string_scan_bytes_read n scan_fits-limit e)

  spend_string :
      (n : ℕ)
      → exceeds (string_limit s) s.retained_string_bytes n ≡ false
      → add64 s.retained_string_bytes n ≤ string_limit s
  spend_string n e =
      omega (arith, spend_within (string_limit s) s.retained_string_bytes n strings_fit-limit e)

give_back_le : (used n limit : ℕ) → used ≤ limit → give_back used n ≤ limit
give_back_le used n limit h = ground arith

pub check_metadata-Safe : (n : ℕ) → Safe (λ t. Unit) (check_metadata n)
unfolding check_metadata
check_metadata-Safe n =
    Safe-bind {P = λ t. Unit}
      (reject_when (λ t. exceeds (metadata_limit t) t.metadata_bytes_read n) resource_limit)
      (λ a. reject_when (λ t. shared_exceeds t.shared n) resource_limit) (Safe-reject _ _)
      (λ a p. Safe-reject _ _)

pub charge_string-Safe : (n : ℕ) → Safe (λ t. Unit) (charge_string n)
unfolding charge_string
charge_string-Safe n = record {
  of = λ s w.
      After-reject (λ t. exceeds (string_limit t) t.retained_string_bytes n) resource_limit _ s w
        λ e.
          After-counted s _ _ _ _ _ w w.metadata_within w.scan_within (spend_string s w n e)
            w.records_within (w.shared_within, refl);
}

pub charge_metadata-Safe : (n : ℕ) → Safe (λ t. Unit) (charge_metadata n)
unfolding charge_metadata
charge_metadata-Safe n = record {
  of = λ s w. After-check_metadata n _ s w λ e f.
      After-counted s _ _ _ _ _ w (spend_metadata s w n e) w.scan_within w.strings_within
        w.records_within (shared_commit-within s.shared n w.shared_within f);
}

pub check_and_charge_string_scan-Safe : (n : ℕ) → Safe (λ t. Unit) (check_and_charge_string_scan n)
unfolding check_and_charge_string_scan
check_and_charge_string_scan-Safe n = record {
  of = λ s w. After-check_string_scan n _ s w λ g. After-check_metadata n _ s w λ e f.
      After-counted s _ _ _ _ _ w (spend_metadata s w n e) (spend_scan s w n g) w.strings_within
        w.records_within (shared_commit-within s.shared n w.shared_within f);
}

pub refund_all_string_scan-Safe : (n : ℕ) → Safe (λ t. Unit) (refund_all_string_scan n)
unfolding refund_all_string_scan
refund_all_string_scan-Safe n = record {
  of = λ s w.
      After-counted s _ _ _ _ _ w (give_back_le _ n _ w.metadata_within)
        (give_back_le _ n _ w.scan_within) w.strings_within w.records_within
        (shared_refund-within s.shared n w.shared_within);
}

pub charge_version_record-Safe : Safe (λ t. Unit) charge_version_record
unfolding charge_version_record
charge_version_record-Safe = record {
  of = λ s w.
      After-reject (λ t. leb (version_record_limit t) t.version_records) resource_limit _ s w
        λ e.
          After-counted s _ _ _ _ _ w w.metadata_within w.scan_within w.strings_within
            (ground (
              arith,
              limit_or_fits s.max_version_records max_version_records_per_input w.records_fit
                  (omega arith),
            ))
            (w.shared_within, refl);
}
