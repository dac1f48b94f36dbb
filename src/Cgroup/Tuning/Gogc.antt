-- ===== src/Cgroup/Tuning/Gogc.antt =====
-- GOGC by profile: the range of the adaptive value, and where the collector is turned off.
use microfat.Base.{
  ℕ, ◌≤◌, ◌<◌, ◌≡◌, ◌↔◌, ◌⊎◌, inl, inr, refl, ◌∙◌, false, ◌||◌, none, some, arith, Bool-cases, ◌==◌,
  Option-cases, if◌then◌else◌,
}
use microfat.Words.{IsInt64, IsNonneg, le64, lt64}
use microfat.Text.{Bytes, bytes_eq}
use microfat.Text.Laws.{bytes_eq-cases, bytes_eq_refl}
use microfat.Cgroup.Floats.{Floats}
use microfat.Cgroup.ByteSize.{max_int64}
use microfat.Cgroup.Tuning.{
  TuningPlan, gc_profile_batch_etl, default_batch_etl_gogc, resolve_batch_gogc, set_gogc, set_gogc?,
  raw_gogc, clamp_gogc, calculate_adaptive_gogc, apply_profile_gogc,
}

-- What the adaptive value relies on: the quotient of two positive numbers, less one, in percent, is a number;
-- a number between the two limits is rounded to one between them; and the limits are in order.
pub record IsClamping {F : Type 0} (fl : Floats F) : Type 0 where
  pub number : (a b : ℕ) → 0 < a → 0 < b → fl.is_nan (raw_gogc fl a b) ≡ false
  pub limit : (n : ℕ) → fl.is_nan (fl.of_int n) ≡ false
  pub ordered : fl.lt (fl.of_int 100) (fl.of_int 10) ≡ false
  pub irreflexive : (x : F) → fl.lt x x ≡ false
  pub rounded :
      (x : F)
      → fl.is_nan x ≡ false
      → fl.lt x (fl.of_int 10) ≡ false
      → fl.lt (fl.of_int 100) x ≡ false
      → (10 ≤ fl.to_int (fl.round x)) × (fl.to_int (fl.round x) ≤ 100)

-- What the batch profile does with a budget.
module _ {F : Type 0} where
  batch_gogc : TuningPlan F → ℕ
  batch_gogc p =
      if le64 p.gomemlimit_bytes 0 || p.gomemlimit_bytes == max_int64
      then 0
      else default_batch_etl_gogc

  batch_gogc_iff :
      (p : TuningPlan F)
      → IsNonneg p.gomemlimit_bytes
      → (batch_gogc p ≡ default_batch_etl_gogc)
        ↔ ((0 < p.gomemlimit_bytes) × (p.gomemlimit_bytes < max_int64))
  unfolding batch_gogc
  batch_gogc_iff p h = (λ e. ground (arith, e, h), λ k. ground (arith, k))

  batch_off :
      (fl : Floats F) (live : ℕ) (p : TuningPlan F)
      → p.gc_profile ≡ gc_profile_batch_etl
      → (apply_profile_gogc fl gc_profile_batch_etl live p).gogc ≡ batch_gogc p
  unfolding batch_gogc apply_profile_gogc resolve_batch_gogc bytes_eq
  batch_off fl live p e =
      rw e (elim (Bool-cases (le64 p.gomemlimit_bytes 0 || p.gomemlimit_bytes == max_int64)) [
        | inl bad ↦ rw (bad) refl
        | inr good ↦ rw (good) refl
      ])

module _ {F : Type 0} (fl : Floats F) (clamping : IsClamping fl) where
  clamp_gogc-range :
      (x : F)
      → fl.is_nan x ≡ false
      → (10 ≤ fl.to_int (fl.round (clamp_gogc fl x)))
        × (fl.to_int (fl.round (clamp_gogc fl x)) ≤ 100)
  unfolding clamp_gogc
  clamp_gogc-range x h = elim (Bool-cases (fl.lt x (fl.of_int 10))) [
    | inl low ↦
        rw (low, clamping.ordered)
          (clamping.rounded (fl.of_int 10) (clamping.limit 10) (clamping.irreflexive _)
            clamping.ordered)
    | inr high ↦ elim (Bool-cases (fl.lt (fl.of_int 100) x)) [
      | inl above ↦
          rw (high, above)
            (clamping.rounded (fl.of_int 100) (clamping.limit 100) clamping.ordered
              (clamping.irreflexive _))
      | inr below ↦ rw (high, below) (clamping.rounded x h high below)
    ]
  ]

  -- An adaptive value is from 10 to 100, and there is one exactly for a positive headroom and a positive heap.
  pub calculate_adaptive_gogc-range :
      (headroom live : ℕ)
      → IsNonneg headroom
      → IsNonneg live
      → ((calculate_adaptive_gogc fl headroom live ≡ none) ↔ ((headroom ≡ 0) ⊎ (live ≡ 0)))
        × ((n : ℕ) → calculate_adaptive_gogc fl headroom live ≡ some n → (10 ≤ n) × (n ≤ 100))
  unfolding calculate_adaptive_gogc
  calculate_adaptive_gogc-range headroom live h k = (
    (λ e. ground (arith, e, h, k), λ z. ground (arith, z)),
    λ n e.
        let pos : (0 < headroom) × (0 < live) = ground (arith, e, h, k) in
        let same : fl.to_int (fl.round (clamp_gogc fl (raw_gogc fl headroom live))) ≡ n =
          ground (arith, e, h, k) in
        rw (← same) (
          clamp_gogc-range (raw_gogc fl headroom live) (clamping.number headroom live pos.0 pos.1)),
  )

  set_gogc?-ne :
      (headroom live : ℕ) (p : TuningPlan F)
      → IsNonneg headroom
      → IsNonneg live
      → p.gogc ≡ 0
      → (set_gogc? (calculate_adaptive_gogc fl headroom live) p).gogc < default_batch_etl_gogc
  unfolding set_gogc? set_gogc
  set_gogc?-ne headroom live p h k z =
      elim (Option-cases (calculate_adaptive_gogc fl headroom live)) [
        | inl e ↦ rw (e, z) (omega arith)
        | inr (n, e) ↦
            rw e (omega (arith, ((calculate_adaptive_gogc-range headroom live h k).1 n e).1))
      ]

  other-lt :
      (profile : Bytes) (live : ℕ) (p : TuningPlan F)
      → IsNonneg p.gomemlimit_bytes
      → IsInt64 live
      → p.gogc ≡ 0
      → bytes_eq profile gc_profile_batch_etl ≡ false
      → (apply_profile_gogc fl profile live p).gogc < default_batch_etl_gogc
  unfolding apply_profile_gogc set_gogc
  other-lt profile live p h i z other = elim (Bool-cases (lt64 0 live)) [
    | inl some_live ↦
        let adaptive = set_gogc?-ne p.gomemlimit_bytes live p h (ground (arith, some_live)) z in
        ground (arith, other, z, adaptive)
    | inr no_live ↦ ground (arith, other, z, no_live)
  ]

  -- A profile turns the collector off exactly where it is the batch profile and the budget is finite.
  pub apply_profile_gogc-off_iff :
      (profile : Bytes) (live : ℕ) (p : TuningPlan F)
      → IsNonneg p.gomemlimit_bytes
      → IsInt64 live
      → p.gogc ≡ 0
      → p.gc_profile ≡ profile
      → ((apply_profile_gogc fl profile live p).gogc ≡ default_batch_etl_gogc) ↔ (
          (profile ≡ gc_profile_batch_etl)
          × (0 < p.gomemlimit_bytes)
          × (p.gomemlimit_bytes < max_int64))
  apply_profile_gogc-off_iff profile live p h i z e =
      elim (bytes_eq-cases profile gc_profile_batch_etl) [
        | inl batch ↦
            let finite = batch_gogc_iff p h in
            rw (batch, batch_off fl live p (e ∙ batch))
              (λ k. let (a, b) = finite.0 k in (refl, a, b), λ (_, a, b). finite.1 (a, b))
        | inr other ↦ (
          λ k. absurd (omega (arith, k, other-lt profile live p h i z other)),
          λ (same, _, _). cc (bytes_eq_refl gc_profile_batch_etl, same, other),
        )
      ]
