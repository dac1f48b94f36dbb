-- ===== src/Pack/Prewarm.antt =====
-- internal/pack/prewarm_plan.go: which payloads are selected, and what the cache has of them. The cache and the
-- decoders are parameters.
pub mod Accounting
pub mod Planned
use microfat.Base.{
  ℕ, suc, ◌+◌, ◌-◌, ◌%◌, ◌^◌, Bool, true, false, not, ◌&&◌, ◌||◌, Option, none, some, List, [], ◌∷◌,
  ◌++◌, ◌==◌, ltb, if◌then◌else◌,
}
use microfat.Words.{lt64, le64, is_neg}
use microfat.Text.{Bytes, bytes_eq, is_empty, to_lower}
use microfat.Result.{Result, ok, err, ◌>>=◌, ◌>>◌, reject_if}
use microfat.Format.Types.{VariantEntry, Index, max_payload_size, max_dictionary_size}
use microfat.Format.Checksum.{validate_checksum}
use microfat.Format.Lookup.{find_variant}

pub data PrewarmError : Type 0 where
  prewarm_accounting prewarm_payload_limit level_not_found : PrewarmError
  invalid_checksum payload_too_large : PrewarmError
  invalid_dictionary dictionary_unreadable dictionary_corrupted : PrewarmError

-- A map with digests as its keys, the newest entry in front.
unfoldable pub find : {A : Type 0} → Bytes → List (Bytes × A) → Option A
find key [] = none
find key ((k, a) ∷ entries) = if bytes_eq k key then some a else find key entries

unfoldable pub member : Bytes → List Bytes → Bool
member key [] = false
member key (k ∷ keys) = bytes_eq k key || member key keys

-- The levels that are asked for, as the index spells them.
unfoldable pub target_set : Index → List Bytes → Result PrewarmError (List Bytes)
target_set idx [] = ok []
target_set idx (level ∷ levels) =
    let rest = target_set idx levels in
    elim (find_variant idx level) [
      | none ↦ err level_not_found
      | some entry ↦ rest >>= λ found. ok (entry.level ∷ found)
    ]

unfoldable pub add_prewarm_bytes : ℕ → ℕ → Result PrewarmError ℕ
add_prewarm_bytes total size =
    if ltb (2 ^ 64 - 1 - total) size then err prewarm_accounting else ok ((total + size) % 2 ^ 64)

-- `entry.SHA256 = strings.ToLower(entry.SHA256)`
abbrev pub lowered : VariantEntry → VariantEntry
lowered v = record v { sha256 = to_lower v.sha256 }

-- `identities` and `total`.
pub record Totals : Type 0 where
  pub identities : List (Bytes × ℕ)
  pub total : ℕ

-- A digest with the size that it was declared with before, where it was.
unfoldable pub add_identity : Totals → VariantEntry → Option ℕ → Result PrewarmError Totals
add_identity t v (some size) = if size == v.uncompressed_size then ok t else err prewarm_accounting
add_identity t v none = add_prewarm_bytes t.total v.uncompressed_size >>= λ total.
    ok (record {
      identities = (to_lower v.sha256, v.uncompressed_size) ∷ t.identities;
      total = total;
    })

-- The checks of one selected entry, and what it adds.
unfoldable pub admit : Totals → VariantEntry → Result PrewarmError Totals
admit t v = do
  reject_if (is_empty v.sha256 || not (validate_checksum v.sha256)) invalid_checksum
  reject_if (le64 v.uncompressed_size 0 || lt64 max_payload_size v.uncompressed_size)
      payload_too_large
  add_identity t v (find (to_lower v.sha256) t.identities)

abbrev pub cons_selected :
    VariantEntry → List VariantEntry × ℕ → Result PrewarmError (List VariantEntry × ℕ)
cons_selected v (selected, total) = ok (lowered v ∷ selected, total)

abbrev pub is_selected : List Bytes → VariantEntry → Bool
is_selected [] v = true
is_selected (t ∷ ts) v = member v.level (t ∷ ts)

-- The loop over the variants of the index; without targets all of them are selected.
unfoldable pub select_loop :
    List Bytes → Totals → List VariantEntry → Result PrewarmError (List VariantEntry × ℕ)
select_loop targets t [] = ok ([], t.total)
select_loop targets t (v ∷ vs) =
    let skip = select_loop targets t vs in
    let take = admit t v >>= λ u. select_loop targets u vs >>= cons_selected v in
    if is_selected targets v then take else skip

-- `total > *opts.MaxPayloadBytes`
unfoldable pub over_limit : Option ℕ → ℕ → Bool
over_limit none total = false
over_limit (some bound) total = ltb bound total

unfoldable pub select_prewarm_variants :
    Index → List Bytes → Option ℕ → Result PrewarmError (List VariantEntry × ℕ)
select_prewarm_variants idx target_levels max_payload_bytes = do
  targets ← target_set idx target_levels
  (selected, total) ← select_loop targets (record { identities = []; total = 0 }) idx.variants
  reject_if (over_limit max_payload_bytes total) prewarm_payload_limit
  ok (selected, total)

-- `ReadAt` of the packed file, and the hexadecimal SHA-256 of bytes.
unfoldable pub read_prewarm_dictionary :
    (ℕ → ℕ → Option Bytes) → (Bytes → Bytes) → Index → Result PrewarmError Bytes
read_prewarm_dictionary read_at sha256_hex idx = if idx.dictionary_size == 0 then ok [] else (do
  reject_if
      (is_neg idx.dictionary_size
        || lt64 max_dictionary_size idx.dictionary_size
        || is_neg idx.dictionary_offset)
      invalid_dictionary
  reject_if (is_empty idx.dictionary_sha256 || not (validate_checksum idx.dictionary_sha256))
      invalid_checksum
  elim (read_at idx.dictionary_size idx.dictionary_offset) [
    | none ↦ err dictionary_unreadable
    | some bytes ↦
        if bytes_eq (sha256_hex bytes) (to_lower idx.dictionary_sha256)
        then ok bytes
        else err dictionary_corrupted
  ])

-- What the cache says of a variant: a valid copy, none, one that may be replaced, or anything else.
pub data Status : Type 0 where
  observed_valid observed_missing observed_corrupt_safe observed_other : Status

pub record Observation : Type 0 where
  pub status : Status
  pub cached_path : Bytes
  pub problem : Bytes

pub record PrewarmPlanEntry : Type 0 where
  pub entry : VariantEntry
  pub observation : Observation
  pub decoder_error : Option Bytes
  pub materialization_possible : Bool
  pub can_prewarm : Bool
  pub reuse_after_level : Bytes

pub record PrewarmPlan : Type 0 where
  pub entries : List PrewarmPlanEntry
  pub unique_payload_count : ℕ
  pub unique_payload_bytes : ℕ
  pub verified_cache_bytes : ℕ
  pub needs_materialization_bytes : ℕ
  pub blocked_payload_bytes : ℕ

abbrev pub is_valid : Status → Bool
is_valid observed_valid = true
is_valid observed_missing = false
is_valid observed_corrupt_safe = false
is_valid observed_other = false

abbrev pub is_safe : Status → Bool
is_safe observed_valid = true
is_safe observed_missing = true
is_safe observed_corrupt_safe = true
is_safe observed_other = false

abbrev pub is_available : Option Bytes → Bool
is_available none = true
is_available (some problem) = false

-- `decoder` is the error of `codec.Get` for a compression.
unfoldable pub describe_prewarm_entry :
    (Bytes → Option Bytes) → VariantEntry → Observation → PrewarmPlanEntry
describe_prewarm_entry decoder v o =
    let possible = is_available (decoder v.compression) && is_safe o.status in
    record {
      entry = v;
      observation = o;
      decoder_error = decoder v.compression;
      materialization_possible = possible;
      can_prewarm = is_valid o.status || possible;
      reuse_after_level = [];
    }

-- The `switch` on the status of a payload that is seen for the first time.
unfoldable pub count_payload : Status → ℕ → PrewarmPlan → PrewarmPlan
count_payload observed_valid size p = record p {
  verified_cache_bytes = (p.verified_cache_bytes + size) % 2 ^ 64;
}
count_payload observed_missing size p = record p {
  needs_materialization_bytes = (p.needs_materialization_bytes + size) % 2 ^ 64;
}
count_payload observed_corrupt_safe size p = record p {
  needs_materialization_bytes = (p.needs_materialization_bytes + size) % 2 ^ 64;
}
count_payload observed_other size p = record p {
  blocked_payload_bytes = (p.blocked_payload_bytes + size) % 2 ^ 64;
}

-- The plan, `observations` and `preparedLevels`.
pub record Planning : Type 0 where
  pub plan : PrewarmPlan
  pub observations : List (Bytes × Observation)
  pub prepared_levels : List (Bytes × Bytes)

abbrev pub level_or_empty : Option Bytes → Bytes
level_or_empty none = []
level_or_empty (some level) = level

-- The observation of an entry: the one that was made of its digest, or a new one, which is counted.
unfoldable pub observed :
    (VariantEntry → Observation)
    → VariantEntry
    → Planning
    → Option Observation
    → Observation × Planning
observed look v s (some o) = (o, s)
observed look v s none =
    let o = look v in
    let counted = count_payload o.status v.uncompressed_size s.plan in
    (
      o,
      record s {
        plan = record counted { unique_payload_count = counted.unique_payload_count + 1 };
        observations = (v.sha256, o) ∷ s.observations;
      },
    )

unfoldable pub observe :
    (VariantEntry → Observation) → VariantEntry → Planning → Observation × Planning
observe look v s = observed look v s (find v.sha256 s.observations)

-- The description of an entry, and the level whose payload it can use.
unfoldable pub append_entry :
    (Bytes → Option Bytes) → VariantEntry → Observation → Planning → Planning
append_entry decoder v o s =
    let described = describe_prewarm_entry decoder v o in
    let prior = level_or_empty (find v.sha256 s.prepared_levels) in
    let result =
      if not (is_empty prior) && not (is_valid o.status)
      then record described { can_prewarm = true; reuse_after_level = prior }
      else described in
    record s {
      plan = record s.plan { entries = s.plan.entries ++ (result ∷ []) };
      prepared_levels =
          if result.materialization_possible && is_empty prior
          then (v.sha256, v.level) ∷ s.prepared_levels
          else s.prepared_levels;
    }

unfoldable pub plan_entries :
    (VariantEntry → Observation) → (Bytes → Option Bytes) → List VariantEntry → Planning → Planning
plan_entries look decoder [] s = s
plan_entries look decoder (v ∷ vs) s =
    let (o, t) = observe look v s in plan_entries look decoder vs (append_entry decoder v o t)

abbrev pub start_planning : ℕ → Planning
start_planning total = record {
  plan = record {
    entries = [];
    unique_payload_count = 0;
    unique_payload_bytes = total;
    verified_cache_bytes = 0;
    needs_materialization_bytes = 0;
    blocked_payload_bytes = 0;
  };
  observations = [];
  prepared_levels = [];
}

-- What follows the reading of the index.
unfoldable pub plan_prewarm_binary :
    (VariantEntry → Observation)
    → (Bytes → Option Bytes)
    → (ℕ → ℕ → Option Bytes)
    → (Bytes → Bytes)
    → Index
    → List Bytes
    → Option ℕ
    → Result PrewarmError PrewarmPlan
plan_prewarm_binary look decoder read_at sha256_hex idx target_levels max_payload_bytes = do
  (selected, total) ← select_prewarm_variants idx target_levels max_payload_bytes
  dictionary ← read_prewarm_dictionary read_at sha256_hex idx
  ok (plan_entries look decoder selected (start_planning total)).plan
