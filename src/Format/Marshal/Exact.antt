-- ===== src/Format/Marshal/Exact.antt =====
-- The buffer that the encoder fills ends xs the layout: no write panics, and none is cut.
use native.Mathlib.Nat.{sub-zero}
use microfat.Base.{
  ℕ, ◌+◌, ◌-◌, ◌≤◌, ◌≡◌, ◌∙◌, List, [], ◌∷◌, ◌++◌, arith, length, length-append, append_assoc,
  append-nil, replicate,
}
use microfat.Text.{Bytes}
use microfat.Result.{Result, ok, ◌>>=◌, >>=-eq-ok, bind_congr}
use microfat.Words.{length-put_uint}
use microfat.Format.Types.{VariantEntry, Index, FormatError}
use microfat.Format.Buffer.Writing.{filled, store-filled, copy_at-filled}
use microfat.Format.Marshal.{
  Cursor, write_bytes, write_copy, write_string8, write_string16, write_variant, write_variants,
  write_header, write_index, index_size, fixed_size, marshal_binary_index, variant_size, total_size,
}
use microfat.Format.Marshal.Layout.{
  string8, string16, variant_layout, variants_layout, header_layout, index_layout, length-string8,
  length-string16,
}

-- `done` is written, and room for k bytes is left.
abbrev pub at_end : Bytes → ℕ → Cursor
at_end done k = record { buf = filled done k; offset = length done }

-- `w` writes exactly `bs` wherever there is room for it.
pub record Writes (w : Cursor → Result FormatError Cursor) (bs : Bytes) : Type 0 where
  pub at :
      (done : Bytes) (k : ℕ)
      → length bs ≤ k
      → w (at_end done k) ≡ ok (at_end (done ++ bs) (k - length bs))

pub write_bytes-Writes : (bs : Bytes) → Writes (write_bytes bs) bs
unfolding write_bytes
write_bytes-Writes bs = record { at = λ done k h. rw (store-filled done k bs h, length-append) }

pub write_copy-Writes : (bs : Bytes) → Writes (write_copy bs) bs
unfolding write_copy
write_copy-Writes bs = record { at = λ done k h. rw (copy_at-filled done k bs h, length-append) }

sub-sub : (k a b : ℕ) → k - a - b ≡ k - (a + b)
sub-sub k a b = omega arith

-- One write after the other.
pub Writes-bind :
    (w v : Cursor → Result FormatError Cursor) (xs bs : Bytes)
    → Writes w xs
    → Writes v bs
    → Writes (λ c. w c >>= v) (xs ++ bs)
Writes-bind w v xs bs p q = record {
  at = λ done k h.
      let fits : length xs + length bs ≤ k = omega (arith, length-append xs bs) in
      rw (p.at done k (omega arith)) (
        q.at (done ++ xs) (k - length xs) (omega arith)
        ∙ cc (append_assoc done xs bs, length-append xs bs, sub-sub k (length xs) (length bs)));
}

pub string8-Writes : (s : Bytes) → Writes (write_string8 s) (string8 s)
unfolding write_string8 string8
string8-Writes s = Writes-bind _ _ _ _ (write_bytes-Writes _) (write_copy-Writes s)

pub string16-Writes : (s : Bytes) → Writes (write_string16 s) (string16 s)
unfolding write_string16 string16
string16-Writes s = Writes-bind _ _ _ _ (write_bytes-Writes _) (write_copy-Writes s)

pub ruleset writes_rules = (Writes-bind, write_bytes-Writes, string8-Writes, string16-Writes)

variant-Writes : (v : VariantEntry) → Writes (write_variant v) (variant_layout v)
unfolding write_variant variant_layout
variant-Writes v = search writes_rules depth 9

variants-Writes : (vs : List VariantEntry) → Writes (write_variants vs) (variants_layout vs)
unfolding write_variants variants_layout
variants-Writes [] = record { at = λ done k h. cc (append-nil done, sub-zero k) }
variants-Writes (v ∷ vs) = Writes-bind _ _ _ _ (variant-Writes v) (variants-Writes vs)

header-Writes : (idx : Index) → Writes (write_header idx) (header_layout idx)
unfolding write_header header_layout
header-Writes idx = search writes_rules depth 9

index-Writes : (idx : Index) → Writes (write_index idx) (index_layout idx)
unfolding write_index index_layout
index-Writes idx = search (writes_rules, header-Writes, variants-Writes) depth 9

length-variant_layout :
    (v : VariantEntry) (n : ℕ) → variant_size v ≡ ok n → n ≡ length (variant_layout v)
unfolding variant_size variant_layout
length-variant_layout v n h = grind (arith, length-append, length-put_uint, length-string8)

length-variants_layout :
    (acc t : ℕ) (vs : List VariantEntry)
    → total_size acc vs ≡ ok t
    → t ≡ acc + length (variants_layout vs)
unfolding total_size variants_layout
length-variants_layout acc t [] h = ground arith
length-variants_layout acc t (v ∷ vs) h =
    let (n, e, r) = >>=-eq-ok (variant_size v) (λ n. total_size (acc + n) vs) h in
    omega (
      arith,
      length-variant_layout v n e,
      length-variants_layout (acc + n) t vs r,
      length-append (variant_layout v) (variants_layout vs),
    )

sub-all : (t n : ℕ) → t ≡ n → replicate {A = ℕ} (t - n) 0 ≡ []
sub-all t n h = let z : t - n ≡ 0 = omega arith in rw z

pub length-header_layout : (idx : Index) → length (header_layout idx) ≡ 34
unfolding header_layout
length-header_layout idx = simp (length-append, length-put_uint)

length-fixed_layout :
    (idx : Index)
    → length (index_layout idx) ≡ fixed_size idx + length (variants_layout idx.variants)
unfolding index_layout fixed_size
length-fixed_layout idx =
    grind
      (arith, length-append, length-put_uint, length-string8, length-string16, length-header_layout)

-- The size that is counted is the size of the layout.
pub length-index_layout :
    (idx : Index) (t : ℕ) → index_size idx ≡ ok t → t ≡ length (index_layout idx)
unfolding index_size
length-index_layout idx t h =
    let fits : total_size (fixed_size idx) idx.variants ≡ ok t = ground arith in
    omega
      (arith, length-fixed_layout idx, length-variants_layout (fixed_size idx) t idx.variants fits)

written :
    (idx : Index) (t : ℕ)
    → index_size idx ≡ ok t
    → (write_index idx (record { buf = replicate t 0; offset = 0 }) >>= λ c. ok c.buf)
      ≡ ok (index_layout idx)
written idx t h =
    let e = length-index_layout idx t h in
    rw ((index-Writes idx).at [] t (omega arith))
      (cc (append-nil (index_layout idx), sub-all t (length (index_layout idx)) e))

-- On every index the encoder returns the layout, or the error of a check: the buffer has exactly the
-- size of the layout, so that no write panics, none is cut short, and no byte is left over.
pub marshal-layout :
    (idx : Index) → marshal_binary_index idx ≡ (index_size idx >>= λ _. ok (index_layout idx))
unfolding marshal_binary_index
marshal-layout idx = bind_congr (index_size idx) _ _ (written idx)

-- A successful encoding is the layout, and its size was counted.
pub marshal-ok :
    (idx : Index) (bs : Bytes)
    → marshal_binary_index idx ≡ ok bs
    → (bs ≡ index_layout idx) × (index_size idx ≡ ok (length bs))
marshal-ok idx bs h =
    let (n, e, r) =
      >>=-eq-ok (index_size idx) (λ _. ok (index_layout idx)) (rw marshal-layout at h) in
    let same : bs ≡ index_layout idx = cc r in (same, cc (e, length-index_layout idx n e, same))
