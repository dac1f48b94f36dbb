-- ===== src/Pack/Prewarm/Planned.antt =====
-- The whole plan: its three totals add up to the bytes that were selected.
use microfat.Base.{
  ℕ, ◌+◌, ◌^◌, ◌<◌, ◌≡◌, inl, inr, refl, ap, ◌∙◌, true, false, Option, List, [], ◌∷◌, arith,
  Bool-cases,
}
use microfat.Text.{Bytes}
use microfat.Result.{ok, >>=-eq-ok}
use microfat.Format.Types.{VariantEntry, Index}
use microfat.Pack.Prewarm.{
  member, over_limit, target_set, select_loop, select_prewarm_variants, Observation, PrewarmPlan,
  Planning, observed, observe, append_entry, plan_entries, start_planning, plan_prewarm_binary,
  read_prewarm_dictionary,
}
use microfat.Pack.Prewarm.Accounting.{
  keys, unique_bytes, find-member, select_loop-total, accounted, count_payload-accounted,
}

select-total :
    (idx : Index) (levels : List Bytes) (bound : Option ℕ) (selected : List VariantEntry)
    (total : ℕ)
    → select_prewarm_variants idx levels bound ≡ ok (selected, total)
    → (total ≡ unique_bytes [] selected) × (total < 2 ^ 64) × (over_limit bound total ≡ false)
unfolding select_prewarm_variants
select-total idx levels bound selected total e =
    let (targets, _, rest) = >>=-eq-ok (target_set idx levels) _ e in
    let ((chosen, sum), loop, last) =
      >>=-eq-ok (select_loop targets (record { identities = []; total = 0 }) idx.variants) _ rest in
    let same : chosen ≡ selected = ground (arith, last) in
    let equal : sum ≡ total = ground (arith, last) in
    let under : over_limit bound sum ≡ false = ground (arith, last) in
    let (exact, low) =
      select_loop-total targets (record { identities = []; total = 0 }) idx.variants chosen sum
        (omega arith) loop in
    rw (← same, ← equal) (exact ∙ omega arith, low, under)

module _ (look : VariantEntry → Observation) (decoder : Bytes → Option Bytes) where
  -- The accounts of a plan in the making.
  abbrev Accounts : Planning → ℕ → ℕ → List Bytes → Type 0
  Accounts s total unique seen =
      (accounted s.plan ≡ total)
      × (s.plan.unique_payload_bytes ≡ unique)
      × (keys s.observations ≡ seen)

  append_entry-Accounts :
      (v : VariantEntry) (o : Observation) (s : Planning) (total unique : ℕ) (seen : List Bytes)
      → Accounts s total unique seen
      → Accounts (append_entry decoder v o s) total unique seen
  unfolding append_entry
  append_entry-Accounts v o s total unique seen h = h

  -- An observation counts the bytes of a digest that is seen for the first time.
  observe-Accounts :
      (v : VariantEntry) (s : Planning) (total unique : ℕ) (seen : List Bytes)
      → Accounts s total unique seen
      → (member v.sha256 seen ≡ true → Accounts (observe look v s).1 total unique seen)
        × (member v.sha256 seen ≡ false
            → total + v.uncompressed_size < 2 ^ 64
            → Accounts (observe look v s).1 (total + v.uncompressed_size) unique (v.sha256 ∷ seen))
  unfolding observe observed
  observe-Accounts v s total unique seen (x, y, z) = elim (find-member v.sha256 s.observations) [
    | inr (o, f, m) ↦ (λ k. rw (observe, f) (x, y, z), λ k. absurd (cc (m, k, z)))
    | inl (f, m) ↦ (
      λ k. absurd (cc (m, k, z)),
      λ k low.
          let (a, b) =
            count_payload-accounted (look v).status v.uncompressed_size s.plan (rw x low) in
          rw (observe, f)
            (a ∙ ap (λ n. n + v.uncompressed_size) x, b ∙ y, ap (λ l. v.sha256 ∷ l) z),
    )
  ]

  plan_entries-accounted :
      (vs : List VariantEntry) (s : Planning) (total unique : ℕ) (seen : List Bytes)
      → Accounts s total unique seen
      → total + unique_bytes seen vs < 2 ^ 64
      → (accounted (plan_entries look decoder vs s).plan ≡ total + unique_bytes seen vs)
        × ((plan_entries look decoder vs s).plan.unique_payload_bytes ≡ unique)
  unfolding plan_entries
  plan_entries-accounted [] s total unique seen (x, y, z) h = (omega (arith, x), y)
  plan_entries-accounted (v ∷ vs) s total unique seen h low =
      let (old, new) = observe-Accounts v s total unique seen h in
      let o = (observe look v s).0 in
      let t = (observe look v s).1 in
      elim (Bool-cases (member v.sha256 seen)) [
        | inl m ↦ rw m (
            plan_entries-accounted vs (append_entry decoder v o t) total unique seen
              (append_entry-Accounts v o t total unique seen (old m)) (rw m at low))
        | inr m ↦
            let within : total + (v.uncompressed_size + unique_bytes (v.sha256 ∷ seen) vs)
                < 2 ^ 64 =
              rw m at low in
            let sum = total + v.uncompressed_size in
            let (a, b) =
              plan_entries-accounted vs (append_entry decoder v o t) sum unique (v.sha256 ∷ seen)
                (append_entry-Accounts v o t sum unique (v.sha256 ∷ seen)
                  (new m (omega (arith, within))))
                (omega (arith, within)) in
            rw m (omega (arith, a), b)
      ]

  -- A plan accounts for every selected byte once: what the cache has, what it needs and what is blocked add up to
  -- the bytes of the selected payloads, which are those of their digests, each once, and within the limit.
  pub plan_prewarm_binary-accounted :
      (read_at : ℕ → ℕ → Option Bytes) (sha256_hex : Bytes → Bytes) (idx : Index)
      (levels : List Bytes) (bound : Option ℕ) (p : PrewarmPlan)
      → plan_prewarm_binary look decoder read_at sha256_hex idx levels bound ≡ ok p
      → (selected : List VariantEntry) × (select_prewarm_variants idx levels bound
          ≡ ok (selected, p.unique_payload_bytes))
        × (p.unique_payload_bytes ≡ unique_bytes [] selected)
        × (accounted p ≡ p.unique_payload_bytes)
        × (over_limit bound p.unique_payload_bytes ≡ false)
  unfolding plan_prewarm_binary
  plan_prewarm_binary-accounted read_at sha256_hex idx levels bound p e =
      let ((selected, total), chosen, rest) =
        >>=-eq-ok (select_prewarm_variants idx levels bound) _ e in
      let (dictionary, _, done) =
        >>=-eq-ok (read_prewarm_dictionary read_at sha256_hex idx) _ rest in
      let (sum, low, under) = select-total idx levels bound selected total chosen in
      let (a, b) =
        plan_entries-accounted selected (start_planning total) 0 total [] (refl, refl, refl)
          (omega (arith, sum, low)) in
      let same : (plan_entries look decoder selected (start_planning total)).plan ≡ p =
        ground (arith, done) in
      rw (← same, b) (selected, chosen, sum, omega (arith, a, sum), under)
