-- ===== src/Microarch/Host/Closure.antt =====
-- Which features a level of ARM64 asks for, and that a host supports it exactly when it has them all.
use microfat.Base.{
  ℕ, zero, suc, ◌≡◌, ◌∙◌, ◌⊎◌, inl, inr, refl, sym, true, false, ◌||◌, Option, none, some, List, [],
  ◌∷◌, arith, Bool-cases,
}
use microfat.Text.{Bytes}
use microfat.Text.Laws.{bytes_eq_refl, bytes_eq-cases}
use microfat.Microarch.Requirements.{LevelRequirement}
use microfat.Microarch.Host.{
  find_requirement, insert_all, Collected, if_collected, collect_prereqs, collect_found,
  collect_arm64_requirements,
}
use microfat.Microarch.Host.Sets.{in_set-insert_all}
use microfat.Microarch.Policy.{in_set}

-- The feature `f` is required by `level`: by the level itself, or by one of its prerequisites.
pub data Requires : Bytes → Bytes → Type 0 where
  own :
      {level f : Bytes} {req : LevelRequirement}
      → find_requirement level ≡ some req
      → in_set req.required_features f ≡ true
      → Requires level f
  inherited :
      {level p f : Bytes} {req : LevelRequirement}
      → find_requirement level ≡ some req
      → in_set req.prereqs p ≡ true
      → Requires p f
      → Requires level f

-- What a successful collection does to the set.
pub record Adds (R : Bytes → Type 0) (set set' : List Bytes) : Type 0 where
  pub only : (f : Bytes) → in_set set' f ≡ true → (in_set set f ≡ true) ⊎ R f
  pub keeps : (f : Bytes) → in_set set f ≡ true → in_set set' f ≡ true
  pub adds : (f : Bytes) → R f → in_set set' f ≡ true

-- What one of the levels in a list requires.
abbrev OneOf : List Bytes → Bytes → Type 0
OneOf ps f = (p : Bytes) × (in_set ps p ≡ true) × Requires p f

abbrev pub CollectAdds : (Bytes → List Bytes → Collected) → Type 0
CollectAdds collect =
    (level : Bytes) (set set' : List Bytes)
    → collect level set ≡ some (true, set')
    → Adds (Requires level) set set'

nothing-Adds : (set : List Bytes) → Adds (OneOf []) set set
unfolding in_set
nothing-Adds set = record { only = λ f h. inl h; keeps = λ f h. h; adds = λ f r. let m = r.1 in cc }

cons-Adds :
    (p : Bytes) (ps set mid set' : List Bytes)
    → Adds (Requires p) set mid
    → Adds (OneOf ps) mid set'
    → Adds (OneOf (p ∷ ps)) set set'
unfolding in_set
cons-Adds p ps set mid set' one rest = record {
  only = λ f h. elim (rest.only f h) [
    | inl k ↦ elim (one.only f k) [ inl m ↦ inl m | inr r ↦ inr (p, rw (bytes_eq_refl p) refl, r) ]
    | inr (q, m, r) ↦ inr (q, ground arith, r)
  ];
  keeps = λ f h. rest.keeps f (one.keeps f h);
  adds = λ f (q, m, r). elim (bytes_eq-cases p q) [
    | inl same ↦ rest.keeps f (one.adds f (rw same r))
    | inr other ↦ rest.adds f (q, ground (arith, other), r)
  ];
}

-- What has succeeded as a whole has succeeded in its first part.
collected-step :
    (c : Collected) (next : List Bytes → Collected) (set' : List Bytes)
    → if_collected c next ≡ some (true, set')
    → (mid : List Bytes) × (c ≡ some (true, mid)) × (next mid ≡ some (true, set'))
unfolding if_collected
collected-step none next set' e = cc
collected-step (some (false, mid)) next set' e = cc
collected-step (some (true, mid)) next set' e = (mid, refl, e)

prereqs-Adds :
    (collect : Bytes → List Bytes → Collected)
    → CollectAdds collect
    → (ps set set' : List Bytes) → collect_prereqs collect ps set ≡ some (true, set')
    → Adds (OneOf ps) set set'
unfolding collect_prereqs
prereqs-Adds collect h [] set set' e =
    let same : set ≡ set' = ground arith in rw (← same) (nothing-Adds set)
prereqs-Adds collect h (p ∷ ps) set set' e =
    let (mid, first, others) = collected-step (collect p set) _ set' e in
    cons-Adds p ps set mid set' (h p set mid first) (prereqs-Adds collect h ps mid set' others)

-- Requirements are split by the requirement that is found.
Requires-split :
    (level f : Bytes) (req : LevelRequirement)
    → find_requirement level ≡ some req
    → Requires level f
    → (in_set req.required_features f ≡ true) ⊎ OneOf req.prereqs f
Requires-split level f req found (own {req = r} at m) =
    let same : r ≡ req = cc in inl (rw (← same) m)
Requires-split level f req found (inherited {p = p} {req = r} at m k) =
    let same : r ≡ req = cc in inr (p, rw (← same) m, k)

finish-Adds :
    (level : Bytes) (req : LevelRequirement) (set mid : List Bytes)
    → find_requirement level ≡ some req
    → Adds (OneOf req.prereqs) set mid
    → Adds (Requires level) set (insert_all req.required_features mid)
finish-Adds level req set mid found h = record {
  only = λ f m.
      let k : (in_set req.required_features f || in_set mid f) ≡ true =
        sym (in_set-insert_all req.required_features mid f) ∙ m in
      elim (Bool-cases (in_set req.required_features f)) [
        | inl r ↦ inr (own found r)
        | inr r ↦ elim (h.only f (ground (arith, r, k))) [
          | inl s ↦ inl s
          | inr (p, s, r') ↦ inr (inherited found s r')
        ]
      ];
  keeps = λ f m.
      let k = h.keeps f m in in_set-insert_all req.required_features mid f ∙ ground (arith, k);
  adds = λ f r. elim (Requires-split level f req found r) [
    | inl k ↦ in_set-insert_all req.required_features mid f ∙ ground (arith, k)
    | inr one ↦
        let k = h.adds f one in in_set-insert_all req.required_features mid f ∙ ground (arith, k)
  ];
}

found-Adds :
    (collect : Bytes → List Bytes → Collected)
    → CollectAdds collect
    → (level : Bytes) (found : Option LevelRequirement) (set set' : List Bytes)
    → find_requirement level ≡ found
    → collect_found collect found set ≡ some (true, set')
    → Adds (Requires level) set set'
unfolding collect_found
found-Adds collect h level none set set' at e = cc
found-Adds collect h level (some req) set set' at e =
    let (mid, prereqs, done) = collected-step (collect_prereqs collect req.prereqs set) _ set' e in
    let same : insert_all req.required_features mid ≡ set' = ground arith in
    rw (← same)
      (finish-Adds level req set mid at (prereqs-Adds collect h req.prereqs set mid prereqs))

-- A collection that succeeds adds exactly the features that the level requires.
pub collect-Adds : (fuel : ℕ) → CollectAdds (collect_arm64_requirements fuel)
unfolding collect_arm64_requirements
collect-Adds zero level set set' e = cc
collect-Adds (suc fuel) level set set' e =
    found-Adds (collect_arm64_requirements fuel) (collect-Adds fuel) level (find_requirement level)
      set set' refl e
