-- ===== src/Microarch/Host.antt =====
-- The host of internal/microarch/microarch.go: its description, the AMD64 level that its features
-- give, and `hostSupports`.
pub mod Sets
pub mod Closure
pub mod Total
use microfat.Base.{
  ℕ, zero, suc, Bool, true, false, ◌&&◌, ◌||◌, not, Option, none, some, List, [], ◌∷◌, ◌++◌, ◌==◌,
  if◌then◌else◌,
}
use microfat.Base.Int.{ℤ, pos, lez}
use microfat.Text.{Bytes, codes, bytes_eq, is_empty, to_lower}
use microfat.Microarch.Level.{switch, normalize, rank}
use microfat.Microarch.Features.{X86Features}
use microfat.Microarch.Requirements.{LevelRequirement, arm64_level_requirements}

-- `Info`, without the operating system and the diagnostics of each level.
pub record Info : Type 0 where
  pub arch : Bytes
  pub level : Bytes
  pub features : List Bytes

unfoldable pub evaluate_amd64 : X86Features → Bytes
evaluate_amd64 f =
    let has_v2 =
      f.has_lahf_sahf && f.has_cx16 && f.has_popcnt && f.has_sse3 && f.has_ssse3 && f.has_sse41
      && f.has_sse42 in
    let has_v3 =
      has_v2 && f.has_avx && f.has_avx2 && f.has_bmi1 && f.has_bmi2 && f.has_fma && f.has_osxsave
      && f.has_f16c && f.has_lzcnt && f.has_movbe in
    let has_v4 =
      has_v3 && f.has_avx512f && f.has_avx512bw && f.has_avx512cd && f.has_avx512dq
      && f.has_avx512vl in
    if not has_v2
    then codes "v1"
    else if not has_v3
    then codes "v2"
    else if not has_v4
    then codes "v3"
    else codes "v4"

unfoldable pub canonical_arch : Bytes → Bytes
canonical_arch arch =
    switch (to_lower arch)
      ((codes "aarch64", codes "arm64")
        ∷ (codes "x86_64", codes "amd64")
        ∷ (codes "x86-64", codes "amd64")
        ∷ [])
      (to_lower arch)

-- `arm64RequirementsMap[level]`
unfoldable pub find_in : List LevelRequirement → Bytes → Option LevelRequirement
find_in [] level = none
find_in (r ∷ rs) level = if bytes_eq r.level level then some r else find_in rs level

unfoldable pub find_requirement : Bytes → Option LevelRequirement
find_requirement = find_in arm64_level_requirements

-- A set of features, as a map to `true` has it: a list in which a name may stand twice.
unfoldable pub insert_all : List Bytes → List Bytes → List Bytes
insert_all [] set = set
insert_all (f ∷ fs) set = insert_all fs (f ∷ set)

unfoldable pub delete : Bytes → List Bytes → List Bytes
delete f [] = []
delete f (g ∷ set) = let rest = delete f set in if bytes_eq f g then rest else g ∷ rest

unfoldable pub delete_all : List Bytes → List Bytes → List Bytes
delete_all [] set = set
delete_all (f ∷ fs) set = delete_all fs (delete f set)

unfoldable pub is_empty_set : List Bytes → Bool
is_empty_set [] = true
is_empty_set (f ∷ set) = false

-- What `collectARM64Requirements` returns and leaves in its map; `none` means that the fuel ran out.
abbrev pub Collected : Type 0
Collected = Option (Bool × List Bytes)

-- `if !… { return false }`, and what follows it.
unfoldable pub if_collected : Collected → (List Bytes → Collected) → Collected
if_collected none next = none
if_collected (some (false, set)) next = some (false, set)
if_collected (some (true, set)) next = next set

-- The loop over the prerequisites.
unfoldable pub collect_prereqs :
    (Bytes → List Bytes → Collected) → List Bytes → List Bytes → Collected
collect_prereqs collect [] set = some (true, set)
collect_prereqs collect (p ∷ ps) set =
    if_collected (collect p set) (λ set'. collect_prereqs collect ps set')

-- What follows the look-up of the requirement.
unfoldable pub collect_found :
    (Bytes → List Bytes → Collected) → Option LevelRequirement → List Bytes → Collected
collect_found collect none set = some (false, set)
collect_found collect (some req) set =
    if_collected (collect_prereqs collect req.prereqs set)
      (λ set'. some (true, insert_all req.required_features set'))

unfoldable pub collect_arm64_requirements : ℕ → Bytes → List Bytes → Collected
collect_arm64_requirements zero level set = none
collect_arm64_requirements (suc fuel) level set =
    collect_found (collect_arm64_requirements fuel) (find_requirement level) set

-- The longest chain of prerequisites, from v9.5 down to v8.0, has 12 levels.
abbrev pub collect_fuel : ℕ
collect_fuel = 16

unfoldable pub meets : List Bytes → Collected → Bool
meets features none = false
meets features (some (false, required)) = false
meets features (some (true, required)) = is_empty_set (delete_all features required)

unfoldable pub rank_supports : Info → Bytes → Bool
rank_supports host level =
    let r = rank host.arch level in lez (pos 0) r && lez r (rank host.arch host.level)

unfoldable pub host_supports : Info → Bytes → Bool
host_supports host level =
    if not (bytes_eq (canonical_arch host.arch) (codes "arm64"))
    then rank_supports host level
    else meets host.features (collect_arm64_requirements collect_fuel (normalize level) [])
