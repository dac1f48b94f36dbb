-- ===== src/Pack/Abi/Strings.antt =====
-- internal/pack/abi.go: `scanBoundedCString`, which reads a string of a string table in chunks that the
-- budgets allow.
pub mod Scan
pub mod Loop
pub mod Found
pub mod Fitting
pub mod Succeeds
use Prim.Native.Nat.{min}
use microfat.Base.{
  ℕ, zero, suc, ◌+◌, ◌-◌, Bool, ◌&&◌, Option, none, some, List, [], ◌∷◌, ◌==◌, ltb, leb, length,
  take, drop, if◌then◌else◌,
}
use microfat.Text.{Bytes, index_byte}
use microfat.Result.{panic}
use microfat.Format.Buffer.{slice}
use microfat.Pack.Abi.{InputAccounting, Act, metadata, lift, pure, fail, fail_if, gets, ◌>>=◌, ◌>>◌}
use microfat.Pack.Abi.Accounting.{
  shared_remaining, remaining_metadata_budget, remaining_string_scan_budget,
  check_and_charge_string_scan, refund_all_string_scan, charge_string,
}

abbrev pub string_scan_chunk_size : ℕ
string_scan_chunk_size = 64

-- How the loop ends: at a NUL behind so many bytes, at the end of the table, or by the returns
-- inside it, of what charging one more byte gives.
pub data ScanEnd : Type 0 where
  found : ℕ → ScanEnd
  not_terminated gave_up : ScanEnd

unfoldable pub to_charge : ℕ → InputAccounting → ℕ
to_charge want s = min want (
    min (remaining_string_scan_budget s)
      (min (remaining_metadata_budget s) (shared_remaining s.shared)))

abbrev pub charge_one_more : Act ScanEnd
charge_one_more = check_and_charge_string_scan 1 >> pure gave_up

-- `if toCharge > bytesScanned` the rest of the charge is given back.
unfoldable pub refund_unread : ℕ → ℕ → Act Unit
refund_unread charged scanned =
    if ltb scanned charged then refund_all_string_scan (charged - scanned) else pure tt

-- What follows the search of a chunk; `tail` is the next turn of the loop.
unfoldable pub after_chunk : ℕ → ℕ → ℕ → Act ScanEnd → Option ℕ → Act ScanEnd
after_chunk want charged scanned tail (some i) =
    refund_unread charged (suc i) >> pure (found (scanned + i))
after_chunk want charged scanned tail none = if ltb charged want then charge_one_more else tail

unfoldable pub scan_chunk : ℕ → ℕ → Bytes → ℕ → Act ScanEnd → Act ScanEnd
scan_chunk want charged rest scanned tail =
    if charged == 0
    then charge_one_more
    else (check_and_charge_string_scan charged
        >> after_chunk want charged scanned tail (index_byte (take charged rest) 0))

-- The loop. `rest` is the table from `curr` on. Each turn reads a byte at least, so a fuel above the length of `rest` is enough.
unfoldable pub scan_chunks : ℕ → Bytes → ℕ → Act ScanEnd
scan_chunks zero rest scanned = lift panic
scan_chunks (suc fuel) [] scanned = pure not_terminated
scan_chunks (suc fuel) (b ∷ bs) scanned = do
  let rest = b ∷ bs
  let want = min string_scan_chunk_size (length rest)
  charged ← gets (to_charge want)
  scan_chunk want charged rest scanned (scan_chunks fuel (drop charged rest) (scanned + charged))

unfoldable pub finish_string : Bytes → ℕ → Bool → ScanEnd → Act Bytes
finish_string strtab off require_non_empty gave_up = pure []
finish_string strtab off require_non_empty not_terminated = fail metadata
finish_string strtab off require_non_empty (found n) = do
  fail_if (require_non_empty && n == 0) metadata
  charge_string n
  lift (slice strtab off (off + n))

unfoldable pub scan_bounded_c_string : Bytes → ℕ → Bool → Act Bytes
scan_bounded_c_string strtab off require_non_empty = do
  fail_if (leb (length strtab) off) metadata
  end ← scan_chunks (suc (length strtab)) (drop off strtab) 0
  finish_string strtab off require_non_empty end
