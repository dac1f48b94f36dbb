-- ===== src/Pack/Abi/Inspect/FromBytes.antt =====
-- internal/pack/abi.go: `InspectELFABIWithAccounting`, the inspection of bytes in memory, through `bytes.NewReader`.
use microfat.Base.{
  ℕ, zero, suc, ◌-◌, Option, none, some, ◌++◌, ltb, length, length-append, length-replicate,
  length-take, take, drop, replicate, All, arith, if◌then◌else◌, All-append,
}
use microfat.Text.{Bytes}
use microfat.Words.{IsByte}
use microfat.Result.{Result}
use microfat.Format.Unmarshal.Typed.{All-take, All-drop}
use microfat.Pack.Abi.{AbiError, ArtifactAccounting, InputAccounting}
use microfat.Pack.Abi.Reading.{ReaderAt, eof, FillsBuffer}
use microfat.Pack.Abi.Report.{VariantAbiReport}
use microfat.Pack.Abi.Inspect.{inspect_elf_abi_with_accounting}
use microfat.Pack.Abi.Safe.{SharedWithin, After}
use microfat.Pack.Abi.Inspect.Total.{IsReport, fresh, inspect_elf_abi_with_accounting-After}

-- `ReadAt` of a reader of bytes, into a buffer of zeros: it copies what there is, and reports the end where that is too little.
unfoldable pub bytes_reader : Bytes → ReaderAt
bytes_reader bs size off =
    let got = take size (drop off bs) in
    record {
      buf = got ++ replicate (size - length got) 0;
      count = length got;
      error = if ltb (length got) size then some eof else none;
    }

unfoldable pub inspect_elf_abi_bytes :
    Bytes → Option ArtifactAccounting → Result AbiError VariantAbiReport × InputAccounting
inspect_elf_abi_bytes bs shared =
    inspect_elf_abi_with_accounting (bytes_reader bs) (length bs) shared

All-zeros : (n : ℕ) → All IsByte (replicate n 0)
All-zeros zero = tt
All-zeros (suc n) = (omega arith, All-zeros n)

pub bytes_reader-FillsBuffer : (bs : Bytes) → All IsByte bs → FillsBuffer (bytes_reader bs)
unfolding bytes_reader
bytes_reader-FillsBuffer bs h size off =
    let got = take size (drop off bs) in
    (
      omega (
        arith,
        length-append got (replicate (size - length got) 0),
        length-replicate {A = ℕ} (size - length got) 0,
        length-take size (drop off bs),
      ),
      All-append IsByte got _ (All-take size (drop off bs) (All-drop off bs h))
          (All-zeros (size - length got)),
    )

-- For any bytes and a shared account, if any, within its limit: the inspection returns a report or an
-- error, every budget is kept and every limit the same, and a report that it returns is well formed. Its
-- interpreter, if any, is a name below 4096 bytes, its dependencies are names, its requirements name a
-- library and a version and increase strictly, and its linkage follows from interpreter and dependencies.
pub inspect_elf_abi_bytes-After :
    (bs : Bytes) (shared : Option ArtifactAccounting)
    → All IsByte bs
    → SharedWithin shared
    → After (fresh shared) IsReport (inspect_elf_abi_bytes bs shared)
unfolding inspect_elf_abi_bytes
inspect_elf_abi_bytes-After bs shared h k =
    inspect_elf_abi_with_accounting-After (bytes_reader bs) (length bs) shared
      (bytes_reader-FillsBuffer bs h) k
