-- ===== src/Cgroup/Memory/Effective.antt =====
-- The effective limit and the constraining limit of internal/cgroup/cgroup.go, by the least of the finite bounds.
use microfat.Base.{
  ℕ, ◌≡◌, ◌⊎◌, refl, ap, ◌∙◌, Bool, true, false, Option, none, some, arith, ltb, if◌then◌else◌,
}
use microfat.Words.{IsNonneg}
use microfat.Text.{Bytes, bytes_eq}
use microfat.Cgroup.Memory.{
  Limits, calculate_effective_memory_limit, determine_constraining_limit, has_memory_limit,
  has_memory_high, effective_memory_limit, constraining_memory_limit, limit_constraint_max,
  limit_constraint_high,
}

-- The least of two bounds, of which each may be missing; of two equal bounds the first.
abbrev pub least : Option ℕ → Option ℕ → Option ℕ
least none b = b
least (some a) none = some a
least (some a) (some b) = if ltb b a then some b else some a

abbrev pub bytes_of : Option ℕ → ℕ
bytes_of none = 0
bytes_of (some a) = a

abbrev pub reported : Option ℕ → ℕ × Bool
reported none = (0, false)
reported (some a) = (a, true)

bytes_of-reported : (o : Option ℕ) → (reported o).0 ≡ bytes_of o
bytes_of-reported none = refl
bytes_of-reported (some a) = refl

module _ {F : Type 0} where
  abbrev pub hard_bound : Limits F → Option ℕ
  hard_bound l = if has_memory_limit l then some l.memory_limit_bytes else none

  abbrev pub high_bound : Limits F → Option ℕ
  high_bound l = if has_memory_high l then some l.memory_high_bytes else none

  -- The bytes that the limits leave: those of the least finite bound, 0 where there is none.
  abbrev pub ceiling : Limits F → ℕ
  ceiling l = bytes_of (least (hard_bound l) (high_bound l))

  -- The bytes are at least 0, and the effective bytes are unset or those of the least bound.
  pub record IsValid (l : Limits F) : Type 0 where
    pub hard : IsNonneg l.memory_limit_bytes
    pub high : IsNonneg l.memory_high_bytes
    pub effective :
        (l.effective_memory_limit_bytes ≡ 0)
        ⊎ (l.effective_memory_limit_bytes ≡ bytes_of (least (hard_bound l) (high_bound l)))

  -- The bound that a name stands for.
  abbrev pub named_bound : Limits F → Bytes → Option ℕ
  named_bound l name =
      if bytes_eq name limit_constraint_high
      then high_bound l
      else if bytes_eq name limit_constraint_max
      then hard_bound l
      else none

  -- For valid limits, the effective limit is the least of the finite bounds, and is reported as finite
  -- exactly when one of them is.
  pub effective_memory_limit-least :
      (l : Limits F)
      → IsValid l
      → effective_memory_limit l ≡ reported (least (hard_bound l) (high_bound l))
  unfolding effective_memory_limit calculate_effective_memory_limit has_memory_limit has_memory_high
  effective_memory_limit-least l v = ground (arith, v.hard, v.high, v.effective)

  pub least-IsNonneg :
      (limits : Limits F)
      → IsValid limits
      → ((effective_memory_limit limits).0 ≡ ceiling limits) × IsNonneg (ceiling limits)
  least-IsNonneg limits v = (
    ap (λ p. p.0) (effective_memory_limit-least limits v)
        ∙ bytes_of-reported (least (hard_bound limits) (high_bound limits)),
    ground (arith, v.hard, v.high),
  )

  -- For valid limits, the constraint that is reported names the least of the finite bounds, and none exactly
  -- when there is none.
  pub constraining_memory_limit-least :
      (l : Limits F)
      → IsValid l
      → named_bound l (constraining_memory_limit l) ≡ least (hard_bound l) (high_bound l)
  unfolding constraining_memory_limit has_memory_limit has_memory_high bytes_eq
  constraining_memory_limit-least l v = ground (arith, v.hard, v.high)

  -- Without the flags of a finite bound, the two functions on bytes agree with the methods.
  pub bytes-methods :
      (l : Limits F)
      → IsValid l
      → l.memory_limit_finite ≡ false
      → l.memory_high_finite ≡ false
      → ((calculate_effective_memory_limit l.memory_limit_bytes l.memory_high_bytes
            ≡ (effective_memory_limit l).0)
          × (determine_constraining_limit l.memory_limit_bytes l.memory_high_bytes
              ≡ constraining_memory_limit l))
  unfolding effective_memory_limit calculate_effective_memory_limit has_memory_limit has_memory_high
      determine_constraining_limit constraining_memory_limit
  bytes-methods l v a b =
      (ground (arith, v.hard, v.high, v.effective, a, b), ground (arith, v.hard, v.high, a, b))
