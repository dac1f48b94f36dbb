-- ===== src/Microarch/Level.antt =====
-- `Normalize`, `Rank` and `Compare` of internal/microarch/microarch.go.
pub mod Idempotent
use microfat.Base.{ℕ, Bool, not, List, [], ◌∷◌, ◌++◌, if◌then◌else◌}
use microfat.Base.Int.{ℤ, pos, negsuc, ltz}
use microfat.Text.{Bytes, codes, bytes_eq, is_empty, to_lower, trim_space, has_prefix, trim_prefix}

-- The prefixes, in the order in which they are taken off.
abbrev pub level_prefixes : List Bytes
level_prefixes =
    codes "linux_"
    ∷ codes "darwin_"
    ∷ codes "windows_"
    ∷ codes "amd64_"
    ∷ codes "amd64-"
    ∷ codes "arm64_"
    ∷ codes "arm64-"
    ∷ codes "x86_64_"
    ∷ codes "x86_64-"
    ∷ codes "x86-64_"
    ∷ codes "x86-64-"
    ∷ codes "aarch64_"
    ∷ codes "aarch64-"
    ∷ []

-- `l = strings.TrimPrefix(l, p)` for one prefix after the other.
unfoldable pub trim_prefixes : Bytes → List Bytes → Bytes
trim_prefixes s [] = s
trim_prefixes s (p ∷ ps) = trim_prefixes (trim_prefix s p) ps

-- The end of `Normalize`: a "v" goes in front, and an empty level is "v1".
unfoldable pub with_v : Bytes → Bytes
with_v l =
    if is_empty l then codes "v1" else if not (has_prefix l (codes "v")) then codes "v" ++ l else l

unfoldable pub normalize : Bytes → Bytes
normalize level = with_v (trim_prefixes (to_lower (trim_space level)) level_prefixes)

-- A `switch` on a text, as the list of its cases and their values.
unfoldable pub switch {ℓ} : {A : Type ℓ} → Bytes → List (Bytes × A) → A → A
switch s [] d = d
switch s ((k, a) ∷ cases) d = if bytes_eq s k then a else switch s cases d

abbrev pub rank_unknown : ℤ
rank_unknown = negsuc 0

abbrev pub amd64_ranks : List (Bytes × ℤ)
amd64_ranks =
    (codes "v1", pos 1) ∷ (codes "v2", pos 2) ∷ (codes "v3", pos 3) ∷ (codes "v4", pos 4) ∷ []

abbrev pub arm64_ranks : List (Bytes × ℤ)
arm64_ranks =
    (codes "v8.0", pos 80)
    ∷ (codes "v8.1", pos 81)
    ∷ (codes "v8.2", pos 82)
    ∷ (codes "v8.3", pos 83)
    ∷ (codes "v8.4", pos 84)
    ∷ (codes "v8.5", pos 85)
    ∷ (codes "v8.6", pos 86)
    ∷ (codes "v8.7", pos 87)
    ∷ (codes "v8.8", pos 88)
    ∷ (codes "v8.9", pos 89)
    ∷ (codes "v9.0", pos 90)
    ∷ (codes "v9.1", pos 91)
    ∷ (codes "v9.2", pos 92)
    ∷ (codes "v9.3", pos 93)
    ∷ (codes "v9.4", pos 94)
    ∷ (codes "v9.5", pos 95)
    ∷ []

abbrev pub baseline_ranks : List (Bytes × ℤ)
baseline_ranks = (codes "v1", pos 1) ∷ []

-- The ranks of an architecture's levels.
unfoldable pub ranks_of : Bytes → List (Bytes × ℤ)
ranks_of arch =
    switch (to_lower arch)
      ((codes "amd64", amd64_ranks)
        ∷ (codes "x86_64", amd64_ranks)
        ∷ (codes "x86-64", amd64_ranks)
        ∷ (codes "arm64", arm64_ranks)
        ∷ (codes "aarch64", arm64_ranks)
        ∷ [])
      baseline_ranks

unfoldable pub rank : Bytes → Bytes → ℤ
rank arch level = switch (normalize level) (ranks_of arch) rank_unknown

-- `Compare`: 1, -1 or 0.
unfoldable pub compare_levels : Bytes → Bytes → Bytes → ℤ
compare_levels arch a b =
    let ra = rank arch a in
    let rb = rank arch b in if ltz rb ra then pos 1 else if ltz ra rb then negsuc 0 else pos 0
