-- ===== src/Microarch/Host/Total.antt =====
-- The collection ends within its fuel, and a host supports exactly the levels it has the features of.
use microfat.Base.{
  ℕ, zero, suc, ◌≤◌, ◌≡◌, ◌↔◌, ◌∙◌, inl, inr, refl, true, false, Option, none, some, List, [], ◌∷◌,
  arith, All, Bool-cases,
}
use microfat.Text.{Bytes, codes, bytes_eq}
use microfat.Text.Laws.{eq_of_bytes_eq}
use microfat.Microarch.Level.{normalize}
use microfat.Microarch.Requirements.{LevelRequirement, arm64_level_requirements}
use microfat.Microarch.Host.{
  Info, canonical_arch, find_in, find_requirement, insert_all, if_collected, collect_prereqs,
  collect_found, collect_arm64_requirements, collect_fuel, delete_all, is_empty_set, meets,
  host_supports,
}
use microfat.Microarch.Host.Sets.{in_set-delete_all, is_empty_set_iff}
use microfat.Microarch.Host.Closure.{Requires, collect-Adds}
use microfat.Microarch.Policy.{in_set}

-- With `n` or more levels to go down, the collection for `level` succeeds.
abbrev Reaches : ℕ → Bytes → Type 0
Reaches n level =
    (fuel : ℕ)
    → n ≤ fuel
    → (set : List Bytes)
    → (set' : List Bytes) × (collect_arm64_requirements fuel level set ≡ some (true, set'))

prereqs-succeed :
    (fuel n : ℕ)
    → n ≤ fuel
    → (ps : List Bytes) → All (Reaches n) ps
    → (set : List Bytes)
    → (set' : List Bytes) × (collect_prereqs (collect_arm64_requirements fuel) ps set
        ≡ some (true, set'))
unfolding collect_prereqs if_collected
prereqs-succeed fuel n h [] all set = (set, refl)
prereqs-succeed fuel n h (p ∷ ps) (one, all) set =
    let (mid, first) = one fuel h set in
    let (set', others) = prereqs-succeed fuel n h ps all mid in (set', rw first others)

level-succeeds :
    (level : Bytes) (n : ℕ) {req : LevelRequirement}
    → find_requirement level ≡ some req
    → All (Reaches n) req.prereqs
    → Reaches (suc n) level
unfolding collect_arm64_requirements collect_found if_collected
level-succeeds level n found all zero h set = absurd (omega (arith, h))
level-succeeds level n {req} found all (suc fuel) h set =
    let (mid, prereqs) = prereqs-succeed fuel n (omega arith) req.prereqs all set in
    (insert_all req.required_features mid, rw (found, prereqs) refl)

Reaches-more : (n m : ℕ) (level : Bytes) → n ≤ m → Reaches n level → Reaches m level
Reaches-more n m level h r fuel k set = r fuel (omega arith) set

-- Each level of the table, from its prerequisites.
levels-Reach : All (λ req. Reaches 12 req.level) arm64_level_requirements
unfolding find_requirement find_in arm64_level_requirements bytes_eq
levels-Reach =
    let at_v8_0 : Reaches 1 (codes "v8.0") = level-succeeds (codes "v8.0") 0 refl tt in
    let at_v8_1 : Reaches 2 (codes "v8.1") = level-succeeds (codes "v8.1") 1 refl (at_v8_0, tt) in
    let at_v8_2 : Reaches 3 (codes "v8.2") = level-succeeds (codes "v8.2") 2 refl (at_v8_1, tt) in
    let at_v8_3 : Reaches 4 (codes "v8.3") = level-succeeds (codes "v8.3") 3 refl (at_v8_2, tt) in
    let at_v8_4 : Reaches 5 (codes "v8.4") = level-succeeds (codes "v8.4") 4 refl (at_v8_3, tt) in
    let at_v8_5 : Reaches 6 (codes "v8.5") = level-succeeds (codes "v8.5") 5 refl (at_v8_4, tt) in
    let at_v8_6 : Reaches 7 (codes "v8.6") = level-succeeds (codes "v8.6") 6 refl (at_v8_5, tt) in
    let at_v8_7 : Reaches 8 (codes "v8.7") = level-succeeds (codes "v8.7") 7 refl (at_v8_6, tt) in
    let at_v8_8 : Reaches 9 (codes "v8.8") = level-succeeds (codes "v8.8") 8 refl (at_v8_7, tt) in
    let at_v8_9 : Reaches 10 (codes "v8.9") = level-succeeds (codes "v8.9") 9 refl (at_v8_8, tt) in
    let at_v9_0 : Reaches 7 (codes "v9.0") = level-succeeds (codes "v9.0") 6 refl (at_v8_5, tt) in
    let at_v9_1 : Reaches 8 (codes "v9.1") =
      level-succeeds (codes "v9.1") 7 refl (at_v9_0, (at_v8_6, tt)) in
    let at_v9_2 : Reaches 9 (codes "v9.2") = level-succeeds (codes "v9.2") 8 refl (at_v9_1, tt) in
    let at_v9_3 : Reaches 10 (codes "v9.3") = level-succeeds (codes "v9.3") 9 refl (at_v9_2, tt) in
    let at_v9_4 : Reaches 11 (codes "v9.4") = level-succeeds (codes "v9.4") 10 refl (at_v9_3, tt) in
    let at_v9_5 : Reaches 12 (codes "v9.5") = level-succeeds (codes "v9.5") 11 refl (at_v9_4, tt) in
    (
      Reaches-more 1 12 (codes "v8.0") (omega arith) at_v8_0,
      (
        Reaches-more 2 12 (codes "v8.1") (omega arith) at_v8_1,
        (
          Reaches-more 3 12 (codes "v8.2") (omega arith) at_v8_2,
          (
            Reaches-more 4 12 (codes "v8.3") (omega arith) at_v8_3,
            (
              Reaches-more 5 12 (codes "v8.4") (omega arith) at_v8_4,
              (
                Reaches-more 6 12 (codes "v8.5") (omega arith) at_v8_5,
                (
                  Reaches-more 7 12 (codes "v8.6") (omega arith) at_v8_6,
                  (
                    Reaches-more 8 12 (codes "v8.7") (omega arith) at_v8_7,
                    (
                      Reaches-more 9 12 (codes "v8.8") (omega arith) at_v8_8,
                      (
                        Reaches-more 10 12 (codes "v8.9") (omega arith) at_v8_9,
                        (
                          Reaches-more 7 12 (codes "v9.0") (omega arith) at_v9_0,
                          (
                            Reaches-more 8 12 (codes "v9.1") (omega arith) at_v9_1,
                            (
                              Reaches-more 9 12 (codes "v9.2") (omega arith) at_v9_2,
                              (
                                Reaches-more 10 12 (codes "v9.3") (omega arith) at_v9_3,
                                (
                                  Reaches-more 11 12 (codes "v9.4") (omega arith) at_v9_4,
                                  (Reaches-more 12 12 (codes "v9.5") (omega arith) at_v9_5, tt),
                                ),
                              ),
                            ),
                          ),
                        ),
                      ),
                    ),
                  ),
                ),
              ),
            ),
          ),
        ),
      ),
    )

-- What is found in a table has the name that was looked for.
find_in-All :
    (P : Bytes → Type 0) (reqs : List LevelRequirement) (level : Bytes) {req : LevelRequirement}
    → All (λ r. P r.level) reqs
    → find_in reqs level ≡ some req
    → P level
unfolding find_in
find_in-All P [] level h e = cc
find_in-All P (r ∷ reqs) level h e = elim (Bool-cases (bytes_eq r.level level)) [
  | inl same ↦ rw (← eq_of_bytes_eq r.level level same) h.0
  | inr other ↦ find_in-All P reqs level h.1 (rw other at e)
]

known-Reaches :
    (level : Bytes) {req : LevelRequirement} → find_requirement level ≡ some req → Reaches 12 level
unfolding find_requirement
known-Reaches level e = find_in-All (Reaches 12) arm64_level_requirements level levels-Reach e

-- How a collection ends, from what the table has under the level's name.
abbrev pub Outcome : Bytes → List Bytes → Option LevelRequirement → Type 0
Outcome level set none = collect_arm64_requirements collect_fuel level set ≡ some (false, set)
Outcome level set (some req) =
    (set' : List Bytes) × (collect_arm64_requirements collect_fuel level set ≡ some (true, set'))

outcome :
    (level : Bytes) (set : List Bytes) (found : Option LevelRequirement)
    → find_requirement level ≡ found
    → Outcome level set found
unfolding collect_arm64_requirements collect_found
outcome level set none e = rw e refl
outcome level set (some req) e = known-Reaches level e 16 (omega arith) set

-- The fuel is enough for every level: the collection ends, with success where the table has the level,
-- and without success and with the set as it was where it has not.
pub collect-total : (level : Bytes) (set : List Bytes) → Outcome level set (find_requirement level)
collect-total level set = outcome level set (find_requirement level) refl

-- The level is in the table.
abbrev pub IsKnown : Bytes → Type 0
IsKnown level = (req : LevelRequirement) × (find_requirement level ≡ some req)

meets-all :
    (level : Bytes) (features set : List Bytes)
    → collect_arm64_requirements collect_fuel level [] ≡ some (true, set)
    → (is_empty_set (delete_all features set) ≡ true)
      ↔ ((f : Bytes) → Requires level f → in_set features f ≡ true)
unfolding in_set
meets-all level features set e =
    let a = collect-Adds collect_fuel level [] set e in
    (
      λ m f r.
          let absent = (is_empty_set_iff (delete_all features set)).0 m f in
          let split = in_set-delete_all features set f in
          let present = a.adds f r in ground (arith, absent, split, present),
      λ h. (is_empty_set_iff (delete_all features set)).1 (λ f. elim (Bool-cases (in_set set f)) [
        | inl k ↦ elim (a.only f k) [
          | inl m ↦ cc
          | inr r ↦ let present = h f r in in_set-delete_all features set f ∙ (rw present refl)
        ]
        | inr k ↦ in_set-delete_all features set f ∙ (rw k (ground arith))
      ]),
    )

supports_iff :
    (host : Info) (level : Bytes)
    → bytes_eq (canonical_arch host.arch) (codes "arm64") ≡ true
    → (found : Option LevelRequirement) → find_requirement (normalize level) ≡ found
    → Outcome (normalize level) [] found
    → (host_supports host level ≡ true) ↔ (
        IsKnown (normalize level)
        × ((f : Bytes) → Requires (normalize level) f → in_set host.features f ≡ true))
unfolding host_supports meets
supports_iff host level arm none e ends =
    rw (arm, ends) (λ h. cc, λ ((req, known), _). cc (e, known))
supports_iff host level arm (some req) e (set, ends) =
    rw (arm, ends)
      (let m = meets-all (normalize level) host.features set ends in
        (λ h. ((req, e), m.0 h), λ (_, h). m.1 h))

-- On an ARM64 host a level is supported exactly when the table has it and the host has every feature
-- that it, or a level that it builds on, requires.
pub host_supports_iff :
    (host : Info) (level : Bytes)
    → bytes_eq (canonical_arch host.arch) (codes "arm64") ≡ true
    → (host_supports host level ≡ true) ↔ (
        IsKnown (normalize level)
        × ((f : Bytes) → Requires (normalize level) f → in_set host.features f ≡ true))
host_supports_iff host level arm =
    supports_iff host level arm (find_requirement (normalize level)) refl
      (collect-total (normalize level) [])
