-- ===== src/Pack/Abi/Inspect/Order.antt =====
-- The order of version requirements in internal/pack/abi.go: by library, then by version, then by flags.
use microfat.Base.{◌<◌, ◌≡◌, inl, inr, true, Bool-cases, List, [], ◌∷◌, ◌==◌, arith, ℕ}
use microfat.Text.{Bytes, bytes_eq}
use microfat.Text.Laws.{eq_of_bytes_eq}
use microfat.Pack.Abi.Report.{VersionRequirement}
use microfat.Pack.Abi.Inspect.{bytes_less, requirement_less}
use microfat.Pack.Abi.Inspect.Increasing.{IsIncreasing}

-- The order of texts: at the first place where they differ, or by the end of one of them.
pub data LexLess : Bytes → Bytes → Type 0 where
  ends : {b : ℕ} {t : Bytes} → LexLess [] (b ∷ t)
  differs : {a b : ℕ} {s t : Bytes} → a < b → LexLess (a ∷ s) (b ∷ t)
  agrees : {a b : ℕ} {s t : Bytes} → a ≡ b → LexLess s t → LexLess (a ∷ s) (b ∷ t)

pub data Precedes (a b : VersionRequirement) : Type 0 where
  by_library : LexLess a.library b.library → Precedes a b
  by_version : a.library ≡ b.library → LexLess a.version b.version → Precedes a b
  by_flags : a.library ≡ b.library → a.version ≡ b.version → a.flags < b.flags → Precedes a b

abbrev pub InOrder : List VersionRequirement → Type 0
InOrder [] = Unit
InOrder (r ∷ []) = Unit
InOrder (r ∷ s ∷ rs) = Precedes r s × InOrder (s ∷ rs)

bytes_less-LexLess : (s t : Bytes) → bytes_less s t ≡ true → LexLess s t
unfolding bytes_less
bytes_less-LexLess [] [] h = cc
bytes_less-LexLess [] (b ∷ t) h = ends
bytes_less-LexLess (a ∷ s) [] h = cc
bytes_less-LexLess (a ∷ s) (b ∷ t) h = elim (Bool-cases (a == b)) [
  | inl same ↦ agrees (ground (arith, same)) (bytes_less-LexLess s t (ground (arith, h, same)))
  | inr other ↦ differs (ground (arith, h, other))
]

requirement_less-Precedes : (a b : VersionRequirement) → requirement_less a b ≡ true → Precedes a b
unfolding requirement_less
requirement_less-Precedes a b h = elim (Bool-cases (bytes_eq a.library b.library)) [
  | inr other ↦ by_library (bytes_less-LexLess _ _ (ground (arith, h, other)))
  | inl library ↦
      let same = eq_of_bytes_eq a.library b.library library in
      elim (Bool-cases (bytes_eq a.version b.version)) [
        | inr other ↦ by_version same (bytes_less-LexLess _ _ (ground (arith, h, library, other)))
        | inl version ↦
            by_flags same (eq_of_bytes_eq a.version b.version version)
              (ground (arith, h, library, version))
      ]
]

pub IsIncreasing-InOrder : (rs : List VersionRequirement) → IsIncreasing rs → InOrder rs
IsIncreasing-InOrder [] h = tt
IsIncreasing-InOrder (r ∷ []) h = tt
IsIncreasing-InOrder (r ∷ s ∷ rs) (h, hs) =
    (requirement_less-Precedes r s h, IsIncreasing-InOrder (s ∷ rs) hs)
