-- ===== src/Pack/Abi/Strings/Succeeds.antt =====
-- `scanBoundedCString` on a text that is there.
use microfat.Pack.Abi.Strings.Fitting.{Fits-le, to_charge_full, charge-Fits, Fits-charged}
use Prim.Native.Nat.{min}
use microfat.Base.{
  ℕ, zero, suc, ◌+◌, ◌-◌, ◌<◌, ◌≡◌, ◌≢◌, refl, ap, sym, ◌∙◌, inl, inr, Bool, false, ◌&&◌,
  Bool-cases, Option-cases, Option, none, some, [], ◌∷◌, ◌++◌, ◌==◌, ltb, leb, length, take, drop,
  length-drop, take-append, All, arith,
}
use microfat.Text.{Bytes, index_byte}
use microfat.Result.{ok}
use microfat.Pack.Abi.{InputAccounting, Act, lift, fail_if, ◌>>=◌}
use microfat.Pack.Abi.Accounting.{exceeds, string_limit, refund_all_string_scan, charge_string}
use microfat.Words.{add64}
use microfat.Pack.Abi.Safe.{Within}
use microfat.Pack.Abi.Safe.Charges.{check_and_charge_string_scan-Safe}
use microfat.Pack.Abi.Strings.{
  ScanEnd, found, to_charge, refund_unread, after_chunk, scan_chunk, scan_chunks, finish_string,
  scan_bounded_c_string,
}
use microfat.Pack.Abi.Strings.Scan.{Fits, charged}
use microfat.Pack.Abi.Strings.Found.{slice-text, index_byte-lt-length}
use microfat.Pack.Abi.Strings.Loop.{index_byte-take-some, index_byte-take-none, shift}

-- A scan leaves the account of the texts that were kept.
abbrev SameTexts : InputAccounting → InputAccounting → Type 0
SameTexts s t =
    (s.retained_string_bytes ≡ t.retained_string_bytes) × (s.max_string_bytes ≡ t.max_string_bytes)

refund_unread-SameTexts :
    (n k : ℕ) (s : InputAccounting)
    → (t : InputAccounting) × (refund_unread n k s ≡ (ok tt, t)) × SameTexts s t
unfolding refund_unread refund_all_string_scan lift
refund_unread-SameTexts n k s = elim (Bool-cases (ltb k n)) [
  | inl more ↦ ((refund_all_string_scan (n - k) s).1, rw more refl, (refl, refl))
  | inr none_left ↦ (s, rw none_left refl, (refl, refl))
]

-- A loop that ends at the NUL that is there.
abbrev Found : Act ScanEnd → ℕ → InputAccounting → Type 0
Found loop k s = (t : InputAccounting) × (loop s ≡ (ok (found k), t)) × SameTexts s t

shift-some : (n i : ℕ) (o : Option ℕ) → shift n o ≡ some i → (j : ℕ) × (o ≡ some j) × (i ≡ n + j)
shift-some n i none h = cc
shift-some n i (some j) h = (j, refl, ground arith)

not_less : (n : ℕ) → ltb n n ≡ false
not_less n = ground arith

after_chunk-Found :
    (want scanned i : ℕ) (rest : Bytes) (tail : Act ScanEnd) (s : InputAccounting)
    → index_byte rest 0 ≡ some i
    → ((j : ℕ) → index_byte (drop want rest) 0 ≡ some j → i ≡ want + j → Found tail (scanned + i) s)
    → Found (after_chunk want want scanned tail (index_byte (take want rest) 0)) (scanned + i) s
unfolding after_chunk ◌>>=◌ lift
after_chunk-Found want scanned i rest tail s there next_turn =
    elim (Option-cases (index_byte (take want rest) 0)) [
      | inl nowhere ↦
          let (j, later, same) =
            shift-some want i _ (sym (index_byte-take-none 0 want rest nowhere) ∙ there) in
          rw (nowhere, not_less want) (next_turn j later same)
      | inr (j, here) ↦
          let same : some j ≡ some i = sym (index_byte-take-some 0 want j rest here) ∙ there in
          let same_j : j ≡ i = cc in
          let (t, refunded, texts) = refund_unread-SameTexts want (suc j) s in
          rw here (t, rw (refunded, same_j) refl, texts)
    ]

scan_chunk-Found :
    (want scanned i : ℕ) (rest : Bytes) (tail : Act ScanEnd) (s : InputAccounting)
    → 0 < want
    → Fits s want
    → index_byte rest 0 ≡ some i
    → ((j : ℕ)
        → index_byte (drop want rest) 0 ≡ some j
        → i ≡ want + j
        → Found tail (scanned + i) (charged s want))
    → Found (scan_chunk want want rest scanned tail) (scanned + i) s
unfolding scan_chunk ◌>>=◌
scan_chunk-Found want scanned i rest tail s pos fits there next_turn =
    let some_wanted : (want == 0) ≡ false = ground arith in
    let (t, ended, texts) =
      after_chunk-Found want scanned i rest tail (charged s want) there next_turn in
    rw (some_wanted, charge-Fits want s fits) (t, ended, texts)

no_nul : (i : ℕ) → index_byte [] 0 ≢ some i
unfolding index_byte
no_nul i h = cc

scan_chunks-Found :
    (fuel scanned i : ℕ) (rest : Bytes) (s : InputAccounting)
    → length rest < fuel
    → Within s
    → Fits s (length rest)
    → index_byte rest 0 ≡ some i
    → Found (scan_chunks fuel rest scanned) (scanned + i) s
unfolding scan_chunks ◌>>=◌
scan_chunks-Found zero scanned i rest s enough w fits there = absurd (omega arith)
scan_chunks-Found (suc fuel) scanned i [] s enough w fits there = absurd (no_nul i there)
scan_chunks-Found (suc fuel) scanned i (b ∷ bs) s enough w fits there =
    let rest = b ∷ bs in
    let want = min 64 (length rest) in
    let part : Fits s want = Fits-le s (length rest) want fits (omega arith) in
    let full : to_charge want s ≡ want = to_charge_full want s (omega arith) (omega arith) part in
    rw full (
      scan_chunk-Found want scanned i rest _ s (omega arith) part there λ j later same.
        let left = drop want rest in
        let size : length left ≡ length rest - want = length-drop want rest in
        let v : Within (charged s want) =
          rw (charge-Fits want s part) at
            ((check_and_charge_string_scan-Safe want).of s w).within in
        let remaining : Fits (charged s want) (length left) =
          Fits-charged s want (length left) w
            (Fits-le s (length rest) (want + length left) fits (omega (arith, size))) in
        let (t, ended, texts) =
          scan_chunks-Found fuel (scanned + want) j left (charged s want) (omega (arith, size)) v
            remaining later in
        let total : scanned + want + j ≡ scanned + i = omega arith in (t, rw total at ended, texts))

index_byte-text :
    (str after : Bytes)
    → All (λ b. 0 < b) str
    → index_byte (str ++ (0 ∷ after)) 0 ≡ some (length str)
unfolding index_byte
index_byte-text [] after h = refl
index_byte-text (b ∷ str) after (h, hs) = ground (arith, index_byte-text str after hs)

charge_string_fits :
    (n : ℕ) (s : InputAccounting)
    → exceeds (string_limit s) s.retained_string_bytes n ≡ false
    → (u : InputAccounting) × (charge_string n s ≡ (ok tt, u))
unfolding charge_string ◌>>=◌ fail_if
charge_string_fits n s h =
    (record s { retained_string_bytes = add64 s.retained_string_bytes n }, rw h refl)

-- The end of a scan that was successful.
finish_string-ok :
    (strtab : Bytes) (off : ℕ) (require_non_empty : Bool) (n : ℕ) (t : InputAccounting)
    → off < length strtab
    → index_byte (drop off strtab) 0 ≡ some n
    → (require_non_empty && n == 0) ≡ false
    → exceeds (string_limit t) t.retained_string_bytes n ≡ false
    → (finish_string strtab off require_non_empty (found n) t).0 ≡ ok (take n (drop off strtab))
unfolding finish_string ◌>>=◌ fail_if lift
finish_string-ok strtab off r n t inside there full kept =
    let (u, charged_text) = charge_string_fits n t kept in
    rw (full, charged_text) (slice-text strtab off n inside there)

scan_then_finish :
    (strtab : Bytes) (off : ℕ) (require_non_empty : Bool) (n : ℕ) (s t : InputAccounting)
    → off < length strtab
    → scan_chunks (suc (length strtab)) (drop off strtab) 0 s ≡ (ok (found n), t)
    → scan_bounded_c_string strtab off require_non_empty s
      ≡ finish_string strtab off require_non_empty (found n) t
unfolding scan_bounded_c_string ◌>>=◌ fail_if
scan_then_finish strtab off r n s t inside ended =
    let in_table : leb (length strtab) off ≡ false = ground arith in rw (in_table, ended) refl

-- On an accounting within its budgets, a text without a NUL that stands at the offset with a NUL behind it
-- is returned, where it is not empty if that is asked for, the rest of the table fits the budgets of the
-- scan, and the length of the text that of the texts that are kept.
pub scan_bounded_c_string-succeeds :
    (strtab : Bytes) (off : ℕ) (require_non_empty : Bool) (str after : Bytes) (s : InputAccounting)
    → Within s
    → drop off strtab ≡ str ++ (0 ∷ after)
    → All (λ b. 0 < b) str
    → (require_non_empty && length str == 0) ≡ false
    → Fits s (length strtab - off)
    → exceeds (string_limit s) s.retained_string_bytes (length str) ≡ false
    → (scan_bounded_c_string strtab off require_non_empty s).0 ≡ ok str
scan_bounded_c_string-succeeds strtab off r str after s w split no_zero full fits kept =
    let there : index_byte (drop off strtab) 0 ≡ some (length str) =
      rw split (index_byte-text str after no_zero) in
    let part : Fits s (length (drop off strtab)) =
      Fits-le s (length strtab - off) _ fits (omega (arith, length-drop off strtab)) in
    let inside : off < length strtab =
      omega (
        arith,
        index_byte-lt-length (drop off strtab) (length str) there,
        length-drop off strtab,
      ) in
    let (t, ended, (retained, limit)) =
      scan_chunks-Found (suc (length strtab)) 0 (length str) (drop off strtab) s
        (omega (arith, length-drop off strtab)) w part there in
    let zero_plus : 0 + length str ≡ length str = omega arith in
    let same_text : take (length str) (drop off strtab) ≡ str =
      rw split (take-append str (0 ∷ after)) in
    rw (scan_then_finish strtab off r (length str) s t inside (rw zero_plus at ended)) (
      finish_string-ok strtab off r (length str) t inside there full (rw (← retained, ← limit) kept)
      ∙ ap ok same_text)
