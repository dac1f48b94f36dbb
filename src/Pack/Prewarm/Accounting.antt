-- ===== src/Pack/Prewarm/Accounting.antt =====
-- The bytes of a plan: each payload counts once, by its digest, and the three totals add up to the selected bytes.
use microfat.Base.{
  ℕ, ◌+◌, ◌^◌, ◌<◌, ◌≡◌, ◌⊎◌, inl, inr, refl, ◌∙◌, true, false, not, ◌||◌, none, some, List, [],
  ◌∷◌, arith, Bool-cases, if◌then◌else◌,
}
use microfat.Words.{lt64, le64}
use microfat.Text.{Bytes, bytes_eq, is_empty, to_lower}
use microfat.Result.{ok, ◌>>=◌, reject_if, >>=-eq-ok}
use microfat.Format.Types.{VariantEntry, max_payload_size}
use microfat.Format.Checksum.{validate_checksum}
use microfat.Pack.Prewarm.{
  find, member, add_prewarm_bytes, lowered, Totals, add_identity, admit, cons_selected,
  invalid_checksum, payload_too_large, is_selected, select_loop, PrewarmPlan, count_payload, Status,
  observed_valid, observed_missing, observed_corrupt_safe, observed_other,
}

abbrev pub keys : {A : Type 0} → List (Bytes × A) → List Bytes
keys [] = []
keys ((k, a) ∷ entries) = k ∷ keys entries

-- The bytes of the payloads whose digests are not among those seen, each digest once.
abbrev pub unique_bytes : List Bytes → List VariantEntry → ℕ
unique_bytes seen [] = 0
unique_bytes seen (v ∷ vs) =
    let old = unique_bytes seen vs in
    let new = v.uncompressed_size + unique_bytes (v.sha256 ∷ seen) vs in
    if member v.sha256 seen then old else new

pub find-member :
    {A : Type 0} (key : Bytes) (entries : List (Bytes × A))
    → ((find key entries ≡ none) × (member key (keys entries) ≡ false))
      ⊎ ((a : A) × (find key entries ≡ some a) × (member key (keys entries) ≡ true))
unfolding find member
find-member key [] = inl (refl, refl)
find-member key ((k, a) ∷ entries) = elim (Bool-cases (bytes_eq k key)) [
  | inl e ↦ rw e (inr (a, refl, refl))
  | inr e ↦ rw e (find-member key entries)
]

-- What an admitted entry adds to the totals: its bytes where its digest is new.
abbrev Admitted : Totals → VariantEntry → Totals → Type 0
Admitted t v u =
    (u.total < 2 ^ 64)
    × (((member (to_lower v.sha256) (keys t.identities) ≡ true) × (u ≡ t))
        ⊎ ((member (to_lower v.sha256) (keys t.identities) ≡ false)
            × (u.total ≡ t.total + v.uncompressed_size)
            × (keys u.identities ≡ to_lower v.sha256 ∷ keys t.identities)))

add_prewarm_bytes-exact :
    (total size sum : ℕ)
    → total < 2 ^ 64
    → add_prewarm_bytes total size ≡ ok sum
    → (sum ≡ total + size) × (sum < 2 ^ 64)
unfolding add_prewarm_bytes
add_prewarm_bytes-exact total size sum h e = (ground (arith, e), ground (arith, e))

add_identity-Admitted :
    (t : Totals) (v : VariantEntry) (u : Totals)
    → t.total < 2 ^ 64
    → add_identity t v (find (to_lower v.sha256) t.identities) ≡ ok u
    → Admitted t v u
unfolding add_identity
add_identity-Admitted t v u h e = elim (find-member (to_lower v.sha256) t.identities) [
  | inr (size, f, m) ↦
      let k : add_identity t v (some size) ≡ ok u = rw f at e in
      let same : u ≡ t = ground (arith, k) in (rw same h, inl (m, same))
  | inl (f, m) ↦
      let k : add_identity t v none ≡ ok u = rw f at e in
      let (sum, added, done) = >>=-eq-ok (add_prewarm_bytes t.total v.uncompressed_size) _ k in
      let (exact, low) = add_prewarm_bytes-exact t.total v.uncompressed_size sum h added in
      let same : record {
        identities = (to_lower v.sha256, v.uncompressed_size) ∷ t.identities;
        total = sum;
      }
          ≡ u =
        ground (arith, done) in
      rw (← same) (low, inr (m, exact, refl))
]

admit-Admitted :
    (t : Totals) (v : VariantEntry) (u : Totals)
    → t.total < 2 ^ 64
    → admit t v ≡ ok u
    → Admitted t v u
unfolding admit
admit-Admitted t v u h e =
    let (_, _, rest) =
      >>=-eq-ok (reject_if (is_empty v.sha256 || not (validate_checksum v.sha256)) invalid_checksum)
        _ e in
    let (_, _, last) =
      >>=-eq-ok
        (reject_if (le64 v.uncompressed_size 0 || lt64 max_payload_size v.uncompressed_size)
          payload_too_large)
        _ rest in
    add_identity-Admitted t v u h last

-- The total of a selection is the bytes of its payloads, each digest once.
pub select_loop-total :
    (targets : List Bytes) (t : Totals) (vs selected : List VariantEntry) (total : ℕ)
    → t.total < 2 ^ 64
    → select_loop targets t vs ≡ ok (selected, total)
    → (total ≡ t.total + unique_bytes (keys t.identities) selected) × (total < 2 ^ 64)
unfolding select_loop
select_loop-total targets t [] selected total h e =
    let none : [] ≡ selected = ground (arith, e) in
    let same : t.total ≡ total = ground (arith, e) in rw (← none, ← same) (omega arith, h)
select_loop-total targets t (v ∷ vs) selected total h e =
    elim (Bool-cases (is_selected targets v)) [
      | inr skip ↦ select_loop-total targets t vs selected total h (rw skip at e)
      | inl take ↦
          let (u, admitted, rest) =
            >>=-eq-ok (admit t v) (λ u. select_loop targets u vs >>= cons_selected v)
              (rw take at e) in
          let ((more, sum), loop, done) =
            >>=-eq-ok (select_loop targets u vs) (cons_selected v) rest in
          let first : lowered v ∷ more ≡ selected = ground (arith, done) in
          let same : sum ≡ total = ground (arith, done) in
          let (low, step) = admit-Admitted t v u h admitted in
          let (exact, bound) = select_loop-total targets u vs more sum low loop in
          rw (← first, ← same)
            (elim step [
              | inl (m, k) ↦ rw m (rw k at exact, bound)
              | inr (m, adds, k) ↦ rw m (rw (k, adds) at exact ∙ omega arith, bound)
            ])
    ]

-- What the three totals of a plan add up to.
abbrev pub accounted : PrewarmPlan → ℕ
accounted p = p.verified_cache_bytes + p.needs_materialization_bytes + p.blocked_payload_bytes

pub count_payload-accounted :
    (status : Status) (size : ℕ) (p : PrewarmPlan)
    → accounted p + size < 2 ^ 64
    → (accounted (count_payload status size p) ≡ accounted p + size)
      × ((count_payload status size p).unique_payload_bytes ≡ p.unique_payload_bytes)
unfolding count_payload
count_payload-accounted observed_valid size p h = (omega (arith, h), refl)
count_payload-accounted observed_missing size p h = (omega (arith, h), refl)
count_payload-accounted observed_corrupt_safe size p h = (omega (arith, h), refl)
count_payload-accounted observed_other size p h = (omega (arith, h), refl)
