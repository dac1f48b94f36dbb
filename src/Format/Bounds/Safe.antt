-- ===== src/Format/Bounds/Safe.antt =====
-- What a safe index is, in plain arithmetic and with no run of the validation: the dictionary and
-- the payloads lie one behind the other below the index, and no two of them overlap.
use microfat.Base.{
  ℕ, ◌+◌, ◌≤◌, ◌<◌, ◌≡◌, ◌≢◌, ◌⊎◌, true, false, List, [], ◌∷◌, All, length, ◌==◌, if◌then◌else◌,
}
use microfat.Base.Int.{pos, ltz}
use microfat.Text.{Bytes, is_empty, trim_space}
use microfat.Words.{IsNonneg}
use microfat.Microarch.Level.{normalize, rank}
use microfat.Format.Types.{VariantEntry, Index, max_dictionary_size, max_payload_size}
use microfat.Format.Checksum.{all_hex}
use microfat.Format.Bounds.{is_unknown_arch}

-- 64 hexadecimal digits.
abbrev pub IsDigest : Bytes → Type 0
IsDigest s = (length s ≡ 64) × (all_hex s ≡ true)

pub record VariantIsSafe (arch : Bytes) (index_offset : ℕ) (v : VariantEntry) : Type 0 where
  pub named : is_empty (trim_space v.level) ≡ false
  pub known : ltz (pos 0) (rank arch (normalize v.level)) ≡ true
  pub below_index : v.offset + v.compressed_size ≤ index_offset
  pub not_empty : 0 < v.compressed_size
  pub unpacks : 0 < v.uncompressed_size
  pub small : v.uncompressed_size ≤ max_payload_size
  pub digest : IsDigest v.sha256

-- Each payload begins behind the end of the one before it, the first at `from` or later.
abbrev pub InOrder : ℕ → List VariantEntry → Type 0
InOrder from [] = Unit
InOrder from (v ∷ vs) = (from ≤ v.offset) × InOrder (v.offset + v.compressed_size) vs

-- No two variants have the same normalized level.
abbrev pub Distinct : List VariantEntry → Type 0
Distinct [] = Unit
Distinct (v ∷ vs) = All (λ w. normalize v.level ≢ normalize w.level) vs × Distinct vs

-- The end of the dictionary, where there is one.
abbrev pub dictionary_end : Index → ℕ
dictionary_end idx =
    if idx.dictionary_size == 0 then 0 else idx.dictionary_offset + idx.dictionary_size

pub record DictionaryIsSafe (idx : Index) (index_offset : ℕ) : Type 0 where
  pub small : idx.dictionary_size ≤ max_dictionary_size
  pub below_index : dictionary_end idx ≤ index_offset
  pub digest : (idx.dictionary_size ≡ 0) ⊎ IsDigest idx.dictionary_sha256

pub record IsSafe (idx : Index) (index_offset : ℕ) : Type 0 where
  pub current : idx.version ≡ 2
  pub at_nonneg : IsNonneg index_offset
  pub some_variant : 0 < length idx.variants
  pub arch_known : is_unknown_arch idx.target_arch ≡ false
  pub dictionary : DictionaryIsSafe idx index_offset
  pub variants : All (VariantIsSafe idx.target_arch index_offset) idx.variants
  pub in_order : InOrder (dictionary_end idx) idx.variants
  pub distinct : Distinct idx.variants
