-- ===== src/Pack/Abi/Safe.antt =====
-- How a call of internal/pack/abi.go ends: the budgets, the limits, the outcome and its value.
pub mod Charges
use microfat.Base.{
  ℕ, ◌^◌, ◌≤◌, ◌<◌, ◌≡◌, refl, ◌∙◌, Bool-cases, inl, inr, Bool, true, false, Option, none, some,
  arith, if◌then◌else◌,
}
use microfat.Result.{Result, ok, err, panic, Returns, Returns-ok, Returns-err, ne_panic}
use microfat.Pack.Abi.{
  AbiError, ArtifactAccounting, InputAccounting, Act, lift, pure, fail, fail_if, reject_when,
  modify, next, ◌>>=◌, ◌>>◌,
}
use microfat.Pack.Abi.Accounting.{
  metadata_limit, string_limit, string_scan_limit, version_record_limit,
}

abbrev pub SharedWithin : Option ArtifactAccounting → Type 0
SharedWithin none = Unit
SharedWithin (some a) = (a.used_bytes ≤ a.max_bytes) × (a.max_bytes < 2 ^ 64)

-- What was spent is within the limits, and the limits fit 64 bits.
pub record Within (s : InputAccounting) : Type 0 where
  pub metadata_within : s.metadata_bytes_read ≤ metadata_limit s
  pub metadata_fits : s.max_metadata_bytes < 2 ^ 64
  pub scan_within : s.string_scan_bytes_read ≤ string_scan_limit s
  pub scan_fits : s.max_string_scan_bytes < 2 ^ 64
  pub strings_within : s.retained_string_bytes ≤ string_limit s
  pub strings_fit : s.max_string_bytes < 2 ^ 64
  pub records_within : s.version_records ≤ version_record_limit s
  pub records_fit : s.max_version_records < 2 ^ 64
  pub shared_within : SharedWithin s.shared

abbrev pub shared_limit : Option ArtifactAccounting → Option ℕ
shared_limit none = none
shared_limit (some a) = some a.max_bytes

pub record SameLimits (s t : InputAccounting) : Type 0 where
  pub same_metadata : s.max_metadata_bytes ≡ t.max_metadata_bytes
  pub same_scan : s.max_string_scan_bytes ≡ t.max_string_scan_bytes
  pub same_strings : s.max_string_bytes ≡ t.max_string_bytes
  pub same_records : s.max_version_records ≡ t.max_version_records
  pub same_shared : shared_limit s.shared ≡ shared_limit t.shared

pub SameLimits-refl : (s : InputAccounting) → SameLimits s s
SameLimits-refl s = record {
  same_metadata = refl;
  same_scan = refl;
  same_strings = refl;
  same_records = refl;
  same_shared = refl;
}

pub SameLimits-trans : (s t u : InputAccounting) → SameLimits s t → SameLimits t u → SameLimits s u
SameLimits-trans s t u h k = record {
  same_metadata = h.same_metadata ∙ k.same_metadata;
  same_scan = h.same_scan ∙ k.same_scan;
  same_strings = h.same_strings ∙ k.same_strings;
  same_records = h.same_records ∙ k.same_records;
  same_shared = h.same_shared ∙ k.same_shared;
}

-- How a call ends that started on `s`: within the budgets and with the same limits, not in a panic,
-- and with `P` of the value, where it returns one.
pub record After {A : Type 0} (s : InputAccounting) (P : A → Type 0)
    (out : Result AbiError A × InputAccounting) : Type 0 where
  pub within : Within out.1
  pub same : SameLimits s out.1
  pub returns : Returns out.0
  pub yields : (a : A) → out.0 ≡ ok a → P a

pub record Safe {A : Type 0} (P : A → Type 0) (m : Act A) : Type 0 where
  pub of : (s : InputAccounting) → Within s → After s P (m s)

module _ {A B : Type 0} {P : A → Type 0} {Q : B → Type 0} where
  pub After-next :
      (s : InputAccounting) (out : Result AbiError A × InputAccounting) (f : A → Act B)
      → After s P out
      → ((a : A) (t : InputAccounting) → out ≡ (ok a, t) → P a → Within t → After t Q (f a t))
      → After s Q (next out f)
  After-next s (ok a, t) f h k =
      let rest = k a t refl (h.yields a refl) h.within in
      record {
        within = rest.within;
        same = SameLimits-trans _ _ _ h.same rest.same;
        returns = rest.returns;
        yields = rest.yields;
      }
  After-next s (err e, t) f h k = record {
    within = h.within;
    same = h.same;
    returns = Returns-err e;
    yields = λ b e. cc;
  }
  After-next s (panic, t) f h k = absurd (ne_panic panic h.returns refl)

  pub Safe-bind :
      (m : Act A) (f : A → Act B) → Safe P m → ((a : A) → P a → Safe Q (f a)) → Safe Q (m >>= f)
  unfolding ◌>>=◌
  Safe-bind m f h k = record {
    of = λ s w. After-next s (m s) f (h.of s w) (λ a t e p v. (k a p).of t v);
  }

module _ {A : Type 0} {P : A → Type 0} where
  pub After-ok : (s : InputAccounting) (a : A) → Within s → P a → After s P (ok a, s)
  After-ok s a w p = record {
    within = w;
    same = SameLimits-refl s;
    returns = Returns-ok a;
    yields = λ b h. let same : a ≡ b = ground arith in rw (← same) p;
  }

  pub Safe-lift : (r : Result AbiError A) → Returns r → ((a : A) → r ≡ ok a → P a) → Safe P (lift r)
  unfolding lift
  Safe-lift r h k = record {
    of = λ s w. record { within = w; same = SameLimits-refl s; returns = h; yields = k };
  }

  pub Safe-pure : (a : A) → P a → Safe P (pure a)
  unfolding lift
  Safe-pure a p = record { of = λ s w. After-ok s a w p }

  pub Safe-fail : (e : AbiError) → Safe P (fail e)
  Safe-fail e = Safe-lift (err e) (Returns-err e) (λ a h. cc)

  pub Safe-if :
      (b : Bool) (m n : Act A)
      → (b ≡ true → Safe P m)
      → (b ≡ false → Safe P n)
      → Safe P (if b then m else n)
  Safe-if true m n h k = h refl
  Safe-if false m n h k = k refl

  pub Safe-weaken : {Q : A → Type 0} (m : Act A) → Safe Q m → ((a : A) → Q a → P a) → Safe P m
  Safe-weaken m h k = record {
    of = λ s w.
        let r = h.of s w in
        record {
          within = r.within;
          same = r.same;
          returns = r.returns;
          yields = λ a e. k a (r.yields a e);
        };
  }

-- Behind a guard its test is known to have failed.
pub Safe-fail_if : (b : Bool) (e : AbiError) → Safe (λ t. b ≡ false) (fail_if b e)
unfolding fail_if lift
Safe-fail_if true e = Safe-fail e
Safe-fail_if false e = Safe-pure tt refl

module _ {A : Type 0} {P : A → Type 0} where
  pub After-reject :
      (test : InputAccounting → Bool) (e : AbiError) (rest : Act A) (s : InputAccounting)
      → Within s
      → (test s ≡ false → After s P (rest s))
      → After s P ((reject_when test e >> rest) s)
  unfolding ◌>>=◌ fail_if lift
  After-reject test e rest s w k = elim (Bool-cases (test s)) [
    | inl bad ↦ rw bad ((Safe-fail e).of s w)
    | inr good ↦ rw good (k good)
  ]

  pub After-modify :
      (update : InputAccounting → InputAccounting) (rest : Act A) (s : InputAccounting)
      → Within (update s)
      → SameLimits s (update s)
      → After (update s) P (rest (update s))
      → After s P ((modify update >> rest) s)
  unfolding ◌>>=◌
  After-modify update rest s w h r = record {
    within = r.within;
    same = SameLimits-trans _ _ _ h r.same;
    returns = r.returns;
    yields = r.yields;
  }

pub Safe-reject :
    (test : InputAccounting → Bool) (e : AbiError) → Safe (λ t. Unit) (reject_when test e)
Safe-reject test e = record {
  of = λ s w. (Safe-weaken _ (Safe-fail_if (test s) e) (λ a h. tt)).of s w;
}
