-- ===== src/Microarch/Evaluate.antt =====
-- The ARM64 level that the features give: `EvaluateARM64` and `checkARM64LevelSatisfied` of
-- internal/microarch/microarch.go.
use microfat.Base.{
  ℕ, zero, suc, Bool, true, false, not, ◌&&◌, Option, none, some, List, [], ◌∷◌, if◌then◌else◌,
}
use microfat.Text.{Bytes, codes, bytes_eq}
use microfat.Microarch.Features.{Arm64Features, has_arm64_named_feature}
use microfat.Microarch.Requirements.{LevelRequirement}
use microfat.Microarch.Host.{find_requirement}
use microfat.Microarch.Policy.{in_set, is_empty_list}

-- `map[string]bool`, the latest entry in front.
abbrev pub Cache : Type 0
Cache = List (Bytes × Bool)

unfoldable pub cached : Cache → Bytes → Option Bool
cached [] level = none
cached ((k, sat) ∷ cache) level = if bytes_eq k level then some sat else cached cache level

-- What a check returns, with the cache that it leaves; `none` means that the fuel ran out.
abbrev pub Checked : Type 0
Checked = Option (Bool × Cache)

-- `cache[level] = sat; return sat`
abbrev pub remember : Bytes → Bool → Cache → Checked
remember level sat cache = some (sat, (level, sat) ∷ cache)

unfoldable pub if_satisfied : Checked → (Cache → Checked) → (Cache → Checked) → Checked
if_satisfied none next stop = none
if_satisfied (some (true, cache)) next stop = next cache
if_satisfied (some (false, cache)) next stop = stop cache

-- The loop over the prerequisites of `level`.
unfoldable pub check_prereqs : (Bytes → Cache → Checked) → Bytes → List Bytes → Cache → Checked
check_prereqs check level [] cache = remember level true cache
check_prereqs check level (p ∷ ps) cache =
    if_satisfied (check p cache) (check_prereqs check level ps) (remember level false)

unfoldable pub check_requirement :
    (Bytes → Cache → Checked) → Arm64Features → Bytes → Option LevelRequirement → Cache → Checked
check_requirement check f level none cache = remember level false cache
check_requirement check f level (some req) cache =
    if not (req.check_features f)
    then remember level false cache
    else check_prereqs check level req.prereqs cache

-- `visiting` is as it was when a check returns, so that it is passed down only.
unfoldable pub check_uncached :
    (List Bytes → Bytes → Cache → Checked)
    → Arm64Features
    → Bytes
    → Cache
    → List Bytes
    → Option Bool
    → Checked
check_uncached check f level cache visiting (some sat) = some (sat, cache)
check_uncached check f level cache visiting none =
    if in_set visiting level
    then some (false, cache)
    else check_requirement (check (level ∷ visiting)) f level (find_requirement level) cache

unfoldable pub check_arm64_level_satisfied :
    ℕ → Arm64Features → List Bytes → Bytes → Cache → Checked
check_arm64_level_satisfied zero f visiting level cache = none
check_arm64_level_satisfied (suc fuel) f visiting level cache =
    check_uncached (check_arm64_level_satisfied fuel f) f level cache visiting (cached cache level)

abbrev pub arm64_ordered_levels : List Bytes
arm64_ordered_levels =
    codes "v9.5"
    ∷ codes "v9.4"
    ∷ codes "v9.3"
    ∷ codes "v9.2"
    ∷ codes "v9.1"
    ∷ codes "v9.0"
    ∷ codes "v8.9"
    ∷ codes "v8.8"
    ∷ codes "v8.7"
    ∷ codes "v8.6"
    ∷ codes "v8.5"
    ∷ codes "v8.4"
    ∷ codes "v8.3"
    ∷ codes "v8.2"
    ∷ codes "v8.1"
    ∷ codes "v8.0"
    ∷ []

-- Enough for the longest chain of prerequisites, of 12 levels.
abbrev pub check_fuel : ℕ
check_fuel = 16

-- The level of the first check that succeeds.
unfoldable pub first_satisfied : (Bytes → Cache → Checked) → List Bytes → Cache → Option Bytes
first_satisfied check [] cache = some (codes "v8.0")
first_satisfied check (l ∷ levels) cache = elim (check l cache) [
  | none ↦ none
  | some (true, cache') ↦ some l
  | some (false, cache') ↦ first_satisfied check levels cache'
]

unfoldable pub evaluate_arm64 : Arm64Features → Option Bytes
evaluate_arm64 f =
    first_satisfied (check_arm64_level_satisfied check_fuel f []) arm64_ordered_levels []

unfoldable pub find_missing_arm64_features : List Bytes → Arm64Features → List Bytes
find_missing_arm64_features [] f = []
find_missing_arm64_features (name ∷ required) f =
    let rest = find_missing_arm64_features required f in
    if has_arm64_named_feature name f then rest else name ∷ rest

pub record Arm64LevelStatus : Type 0 where
  pub level : Bytes
  pub satisfied : Bool
  pub prereqs : List Bytes
  pub missing_prereqs : List Bytes
  pub required_features : List Bytes
  pub missing_features : List Bytes

-- The prerequisites that fail, with the cache that their checks leave.
unfoldable pub find_missing_prereqs :
    (Bytes → Cache → Checked) → List Bytes → Cache → Option (List Bytes × Cache)
find_missing_prereqs check [] cache = some ([], cache)
find_missing_prereqs check (p ∷ ps) cache = elim (check p cache) [
  | none ↦ none
  | some (true, cache') ↦ find_missing_prereqs check ps cache'
  | some (false, cache') ↦ elim (find_missing_prereqs check ps cache') [
    | none ↦ none
    | some (missing, cache'') ↦ some (p ∷ missing, cache'')
  ]
]

-- The status of a level with its requirement, and `satisfiedCache[lvl] = isSat`.
unfoldable pub status_of :
    Bytes
    → LevelRequirement
    → List Bytes
    → Option (List Bytes × Cache)
    → Option (Arm64LevelStatus × Cache)
status_of level req missing none = none
status_of level req missing (some (missing_prereqs, cache)) =
    let satisfied = is_empty_list missing && is_empty_list missing_prereqs in
    some (
      record {
        level = level;
        satisfied = satisfied;
        prereqs = req.prereqs;
        missing_prereqs = missing_prereqs;
        required_features = req.required_features;
        missing_features = missing;
      },
      (level, satisfied) ∷ cache,
    )

-- The zero value that the map has for a level that is not in it.
abbrev pub no_requirement : LevelRequirement
no_requirement = record {
  level = [];
  prereqs = [];
  required_features = [];
  check_features = λ f. true;
}

abbrev pub requirement_or_zero : Option LevelRequirement → LevelRequirement
requirement_or_zero none = no_requirement
requirement_or_zero (some req) = req

unfoldable pub evaluate_level :
    (Bytes → Cache → Checked) → Arm64Features → Bytes → Cache → Option (Arm64LevelStatus × Cache)
evaluate_level check f level cache =
    let req = requirement_or_zero (find_requirement level) in
    let missing =
      if not (req.check_features f)
      then find_missing_arm64_features req.required_features f
      else [] in
    status_of level req missing (find_missing_prereqs check req.prereqs cache)

-- `highestLevel` after a level: the first one that is satisfied, "v8.0" aside.
abbrev pub higher : Bytes → Arm64LevelStatus → Bytes
higher highest status =
    if status.satisfied
      && bytes_eq highest (codes "v8.0")
      && not (bytes_eq status.level (codes "v8.0"))
    then status.level
    else highest

-- The loop over the levels, with the statuses in its order. What follows the loop sets "v8.0" to "v8.0".
unfoldable pub evaluate_levels :
    (Bytes → Cache → Checked)
    → Arm64Features
    → List Bytes
    → Bytes
    → Cache
    → Option (Bytes × List Arm64LevelStatus)
evaluate_levels check f [] highest cache = some (highest, [])
evaluate_levels check f (l ∷ levels) highest cache = elim (evaluate_level check f l cache) [
  | none ↦ none
  | some (status, cache') ↦ elim (evaluate_levels check f levels (higher highest status) cache') [
    | none ↦ none
    | some (level, statuses) ↦ some (level, status ∷ statuses)
  ]
]

unfoldable pub evaluate_arm64_detailed : Arm64Features → Option (Bytes × List Arm64LevelStatus)
evaluate_arm64_detailed f =
    evaluate_levels (check_arm64_level_satisfied check_fuel f []) f arm64_ordered_levels
      (codes "v8.0") []
