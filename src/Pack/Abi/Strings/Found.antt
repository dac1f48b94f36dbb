-- ===== src/Pack/Abi/Strings/Found.antt =====
-- `scanBoundedCString`: what it returns.
use microfat.Base.{
  ℕ, zero, suc, ◌+◌, ◌-◌, ◌≤◌, ◌<◌, ◌≡◌, ◌≢◌, refl, ap, inl, inr, Option-cases, Bool, true, ◌&&◌,
  some, [], ◌∷◌, ◌++◌, ◌==◌, leb, length, take, drop, length-drop, All, arith,
}
use microfat.Text.{Bytes, index_byte}
use microfat.Result.{ok}
use microfat.Format.Buffer.{slice}
use microfat.Format.Buffer.Reading.{slice-in_range}
use microfat.Pack.Abi.{InputAccounting, AbiError, metadata}
use microfat.Pack.Abi.Safe.{Within, After, Safe, Safe-bind, Safe-fail, Safe-fail_if, Safe-pure}
use microfat.Pack.Abi.Safe.Charges.{charge_string-Safe}
use microfat.Pack.Abi.Strings.{
  ScanEnd, found, not_terminated, gave_up, finish_string, scan_bounded_c_string,
}
use microfat.Pack.Abi.Strings.Loop.{Ends, scan_chunks-Safe}

-- `str` is the text that starts at `off`: the bytes before the first NUL.
pub record CStringAt (strtab : Bytes) (off : ℕ) (str : Bytes) : Type 0 where
  pub after : Bytes
  pub split : drop off strtab ≡ str ++ (0 ∷ after)
  pub no_nul : All (λ b. 0 < b) str

index_byte-suc :
    (b : ℕ) (s : Bytes) (i : ℕ) → index_byte (suc b ∷ s) 0 ≡ some (suc i) → index_byte s 0 ≡ some i
unfolding index_byte
index_byte-suc b s i e = ground arith

index_byte-suc_zero : (b : ℕ) (s : Bytes) → index_byte (suc b ∷ s) 0 ≢ some 0
unfolding index_byte
index_byte-suc_zero b s e = ground arith

pub index_byte-split :
    (s : Bytes) (i : ℕ)
    → index_byte s 0 ≡ some i
    → (after : Bytes) × (s ≡ take i s ++ (0 ∷ after)) × All (λ b. 0 < b) (take i s)
unfolding index_byte
index_byte-split [] i e = cc
index_byte-split (zero ∷ s) i e =
    let at_start : 0 ≡ i = ground arith in rw (← at_start) (s, refl, tt)
index_byte-split (suc b ∷ s) zero e = absurd (index_byte-suc_zero b s e)
index_byte-split (suc b ∷ s) (suc i) e =
    let (after, same, no_nul) = index_byte-split s i (index_byte-suc b s i e) in
    (after, ap (λ l. suc b ∷ l) same, (omega arith, no_nul))

pub index_byte-lt-length : (s : Bytes) (i : ℕ) → index_byte s 0 ≡ some i → i < length s
unfolding index_byte
index_byte-lt-length [] i e = cc
index_byte-lt-length (b ∷ s) i e = elim (Option-cases (index_byte s 0)) [
  | inl nowhere ↦ ground arith
  | inr (k, here) ↦ ground (arith, index_byte-lt-length s k here)
]

-- A text that was found and has the length that was asked for.
abbrev pub IsText : Bytes → ℕ → Bool → Bytes → Type 0
IsText strtab off require_non_empty str =
    CStringAt strtab off str × (require_non_empty ≡ true → str ≢ [])

pub slice-text :
    (strtab : Bytes) (off n : ℕ)
    → off < length strtab
    → index_byte (drop off strtab) 0 ≡ some n
    → slice {E = AbiError} strtab off (off + n) ≡ ok (take n (drop off strtab))
slice-text strtab off n h e =
    let inside : off + n ≤ length strtab =
      omega (arith, index_byte-lt-length (drop off strtab) n e, length-drop off strtab) in
    let size : off + n - off ≡ n = omega arith in
    rw (slice-in_range {E = AbiError} strtab off (off + n) (omega arith) inside, size) refl

pub take-ne_nil : (n : ℕ) (s : Bytes) (i : ℕ) → index_byte s 0 ≡ some i → 0 < n → take n s ≢ []
unfolding index_byte
take-ne_nil zero s i e h = absurd (omega arith)
take-ne_nil (suc n) [] i e h = cc
take-ne_nil (suc n) (b ∷ s) i e h = λ x. cc

finish_string-Safe :
    (strtab : Bytes) (off : ℕ) (require_non_empty : Bool) (end : ScanEnd)
    → off < length strtab
    → Ends (drop off strtab) 0 end
    → Safe (IsText strtab off require_non_empty) (finish_string strtab off require_non_empty end)
unfolding finish_string
finish_string-Safe strtab off r gave_up h e = absurd e
finish_string-Safe strtab off r not_terminated h e = Safe-fail metadata
finish_string-Safe strtab off r (found n) h (i, e, same) =
    Safe-bind _ _ (Safe-fail_if (r && n == 0) metadata) λ a full.
      Safe-bind _ _ (charge_string-Safe n) λ b t.
        let same_n : n ≡ i = omega arith in
        let here : index_byte (drop off strtab) 0 ≡ some n = rw same_n e in
        let (after, split, no_nul) = index_byte-split (drop off strtab) n here in
        rw (slice-text strtab off n h here) (
          Safe-pure _ (
            record { after = after; split = split; no_nul = no_nul },
            λ asked. take-ne_nil n _ n here (ground arith),
          ))

pub scan_bounded_c_string-Safe :
    (strtab : Bytes) (off : ℕ) (require_non_empty : Bool)
    → Safe
        (IsText strtab off require_non_empty)
        (scan_bounded_c_string strtab off require_non_empty)
unfolding scan_bounded_c_string
scan_bounded_c_string-Safe strtab off r =
    Safe-bind _ _ (Safe-fail_if (leb (length strtab) off) metadata) λ a inside.
      Safe-bind _ _
        (scan_chunks-Safe (suc (length strtab)) (drop off strtab) 0
          (omega (arith, length-drop off strtab)))
        λ end e. finish_string-Safe strtab off r end (ground arith) e

-- On an accounting within its budgets a scan keeps them and the limits, and returns. What it returns is the text that starts at the offset, the
-- bytes before the first NUL, and where a text is asked for it is not empty.
pub scan_bounded_c_string-After :
    (strtab : Bytes) (off : ℕ) (require_non_empty : Bool) (s : InputAccounting)
    → Within s
    → After s
        (IsText strtab off require_non_empty)
        (scan_bounded_c_string strtab off require_non_empty s)
scan_bounded_c_string-After strtab off r s w = (scan_bounded_c_string-Safe strtab off r).of s w
