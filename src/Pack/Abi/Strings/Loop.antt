-- ===== src/Pack/Abi/Strings/Loop.antt =====
-- Lemmas on the loop of `scanBoundedCString`.
use Prim.Native.Nat.{min}
use microfat.Base.{
  ℕ, zero, suc, ◌+◌, ◌-◌, ◌≤◌, ◌<◌, ◌≡◌, refl, ap, inl, inr, true, Bool-cases, Option-cases, Option,
  none, some, [], ◌∷◌, ◌==◌, ltb, length, take, drop, length-drop, arith,
}
use microfat.Text.{Bytes, index_byte}
use microfat.Pack.Abi.{InputAccounting, Act, pure, ◌>>=◌}
use microfat.Pack.Abi.Accounting.{check_and_charge_string_scan}
use microfat.Pack.Abi.Safe.{
  Within, After, Safe, After-next, Safe-bind, Safe-pure, Safe-if, Safe-weaken,
}
use microfat.Pack.Abi.Safe.Charges.{check_and_charge_string_scan-Safe, refund_all_string_scan-Safe}
use microfat.Pack.Abi.Strings.{
  ScanEnd, found, not_terminated, gave_up, to_charge, charge_one_more, refund_unread, after_chunk,
  scan_chunk, scan_chunks,
}
use microfat.Pack.Abi.Strings.Scan.{charge_ok, to_charge-pos, to_charge_used_up}

pub index_byte-take-some :
    (c n i : ℕ) (s : Bytes) → index_byte (take n s) c ≡ some i → index_byte s c ≡ some i
unfolding index_byte
index_byte-take-some c zero i s e = cc
index_byte-take-some c (suc n) i [] e = cc
index_byte-take-some c (suc n) i (b ∷ s) e = elim (Option-cases (index_byte (take n s) c)) [
  | inl nowhere ↦ ground arith
  | inr (k, here) ↦ ground (arith, index_byte-take-some c n k s here)
]

abbrev pub shift : ℕ → Option ℕ → Option ℕ
shift n none = none
shift n (some i) = some (n + i)

shift-zero : (o : Option ℕ) → o ≡ shift 0 o
shift-zero none = refl
shift-zero (some i) = ap some (omega arith)

pub index_byte-take-none :
    (c n : ℕ) (s : Bytes)
    → index_byte (take n s) c ≡ none
    → index_byte s c ≡ shift n (index_byte (drop n s) c)
unfolding index_byte
index_byte-take-none c zero s e = shift-zero (index_byte s c)
index_byte-take-none c (suc n) [] e = refl
index_byte-take-none c (suc n) (b ∷ s) e = ground (arith, index_byte-take-none c n s)

-- What the end of the loop tells of the table from `curr` on.
abbrev pub Ends : Bytes → ℕ → ScanEnd → Type 0
Ends rest scanned (found k) = (i : ℕ) × (index_byte rest 0 ≡ some i) × (k ≡ scanned + i)
Ends rest scanned not_terminated = index_byte rest 0 ≡ none
Ends rest scanned gave_up = ⊥

-- Where a budget is used up one more byte is refused.
After-used_up :
    (P : ScanEnd → Type 0) (want : ℕ) (s : InputAccounting)
    → Within s
    → 0 < want
    → to_charge want s ≡ 0
    → After s P (charge_one_more s)
unfolding ◌>>=◌ check_and_charge_string_scan
After-used_up P want s w h used =
    After-next s (check_and_charge_string_scan 1 s) (λ t. pure gave_up)
      ((check_and_charge_string_scan-Safe 1).of s w)
      (λ a t e p v.
        let (fits, same) = charge_ok 1 s t e in absurd (omega (arith, to_charge-pos want s h fits)))

refund_unread-Safe : (n k : ℕ) → Safe (λ t. Unit) (refund_unread n k)
unfolding refund_unread
refund_unread-Safe n k =
    Safe-if _ _ _ (λ h. refund_all_string_scan-Safe (n - k)) (λ h. Safe-pure tt tt)

module _ (want n : ℕ) (b : ℕ) (bs : Bytes) (scanned : ℕ) (tail : Act ScanEnd) where
  abbrev rest : Bytes
  rest = b ∷ bs

  Ends-drop :
      (a : ScanEnd)
      → index_byte (take n rest) 0 ≡ none
      → Ends (drop n rest) (scanned + n) a
      → Ends rest scanned a
  Ends-drop (found k) nowhere (i, e, same) =
      (n + i, rw (index_byte-take-none 0 n rest nowhere, e) refl, omega arith)
  Ends-drop not_terminated nowhere e = rw (index_byte-take-none 0 n rest nowhere, e) refl
  Ends-drop gave_up nowhere e = e

  after_chunk-After :
      (s : InputAccounting)
      → Within s
      → (ltb n want ≡ true → to_charge 1 s ≡ 0)
      → Safe (Ends (drop n rest) (scanned + n)) tail
      → After s (Ends rest scanned) (after_chunk want n scanned tail (index_byte (take n rest) 0) s)
  unfolding after_chunk
  after_chunk-After s w used next_turn = elim (Option-cases (index_byte (take n rest) 0)) [
    | inl nowhere ↦ rw nowhere (elim (Bool-cases (ltb n want)) [
      | inl short ↦ rw short (After-used_up (Ends rest scanned) 1 s w (omega arith) (used short))
      | inr whole ↦ rw whole ((Safe-weaken tail next_turn (λ a p. Ends-drop a nowhere p)).of s w)
    ])
    | inr (i, here) ↦ rw here (
        (Safe-bind _ _ (refund_unread-Safe n (suc i)) (λ a t.
            Safe-pure {P = Ends rest scanned} _ (i, index_byte-take-some 0 n i rest here, refl))).of
          s w)
  ]

  scan_chunk-After :
      (s : InputAccounting)
      → Within s
      → 0 < want
      → want ≤ 64
      → to_charge want s ≡ n
      → (0 < n → Safe (Ends (drop n rest) (scanned + n)) tail)
      → After s (Ends rest scanned) (scan_chunk want n rest scanned tail s)
  unfolding scan_chunk ◌>>=◌ check_and_charge_string_scan
  scan_chunk-After s w some_wanted small same next_turn = elim (Bool-cases (n == 0)) [
    | inl nothing ↦
        rw nothing (After-used_up (Ends rest scanned) want s w some_wanted (ground arith))
    | inr something ↦ rw something (
        After-next s (check_and_charge_string_scan n s) _
          ((check_and_charge_string_scan-Safe n).of s w)
          (λ a t e p v.
            let (fits, moved) = charge_ok n s t e in
            after_chunk-After t v
              (λ short. rw (← moved) (to_charge_used_up want n s w small same (ground arith) fits))
              (next_turn (ground arith))))
  ]

index_byte-nil : index_byte [] 0 ≡ none
unfolding index_byte
index_byte-nil = refl

pub scan_chunks-Safe :
    (fuel : ℕ) (rest : Bytes) (scanned : ℕ)
    → length rest < fuel
    → Safe (Ends rest scanned) (scan_chunks fuel rest scanned)
unfolding scan_chunks ◌>>=◌ scan_chunk
scan_chunks-Safe zero rest scanned h = absurd (omega arith)
scan_chunks-Safe (suc fuel) [] scanned h = Safe-pure not_terminated index_byte-nil
scan_chunks-Safe (suc fuel) (b ∷ bs) scanned h = record {
  of = λ s w.
      let want = min 64 (length (b ∷ bs)) in
      let n = to_charge want s in
      scan_chunk-After want n b bs scanned (scan_chunks fuel (drop n (b ∷ bs)) (scanned + n)) s w
        (omega arith) (omega arith) refl
        (λ some_read.
          scan_chunks-Safe fuel (drop n (b ∷ bs)) (scanned + n)
            (omega (arith, length-drop n (b ∷ bs))));
}
