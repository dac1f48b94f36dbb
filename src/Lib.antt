-- ===== src/Lib.antt =====
-- A verification library for microfat, which packs variants of a Linux program for several CPU levels
-- into one file and runs the best one that the host supports.
--
-- The parts of the program. A fat file is a launcher, the compressed payloads, an index and a trailer of
-- 56 bytes. `internal/format` writes and reads index and trailer. `internal/microarch` knows the levels
-- of AMD64 and ARM64, detects what the host can run, and chooses a variant under a policy. The launcher
-- reads the index, asks for a variant, and executes its payload. The two packages meet in
-- `ValidateBounds` and `FindVariant`, which rank and normalize levels. `internal/cgroup` reads the limits
-- of the container and computes from them the settings of the Go runtime that the launcher hands on.
-- `internal/codec` takes the same limits for the workers and the memory of its encoders.
-- `internal/pack` plans, from a validated index, how the cache is filled with payloads, validates the
-- headers of the executables that it packs, and inspects what they ask of the system they run on: an
-- interpreter, libraries, and versions of their symbols, read under budgets that the variants share.
--
-- Which file models what:
-- - Base, Result, Words, Text: helpers. A result is a value, an error or a panic. An int64 is its bit
--   pattern, a number below 2 ^ 64, and comparisons and sums are those of two's complement. A text is
--   its list of bytes.
-- - Format/Types: the constants, errors, `VariantEntry` and `Index` of internal/format/format.go.
-- - Format/Checksum: `ValidateChecksum`.
-- - Format/Buffer: index, slice, `copy` and store of Go on a slice of bytes, which panic out of range.
-- - Format/Marshal: `MarshalBinaryIndex`, with the offset and the buffer as a cursor.
--   Marshal/Layout is the byte layout it is compared with.
-- - Format/Unmarshal: `UnmarshalBinaryIndex` and `decodeBinaryVariant`; a read is given the offset and
--   returns the next one.
-- - Format/Bounds: `ValidateBounds` and its two helpers. Bounds/Safe is what they are compared with.
-- - Format/Trailer: `ReadTrailerAndIndex`, `WriteIndexAndTrailer`, `IsFatBinary` and
--   `IsMissingTrailerError`.
-- - Format/Lookup: `NormalizeVariant`, `VariantLevels`, `FindVariant`.
-- - Format/Escape: `EscapeJSONString`, with a reader of escapes that it is compared with.
-- - Microarch/Level: `Normalize`, `Rank` and `Compare` of internal/microarch/microarch.go.
-- - Microarch/Features, Microarch/Requirements: the feature records, their lists and the table of the
--   ARM64 levels.
-- - Microarch/Host: `EvaluateAMD64`, `collectARM64Requirements`, `hostSupports`.
-- - Microarch/Evaluate: `EvaluateARM64`, its cache, and `EvaluateARM64Detailed`.
-- - Microarch/Detect: `detectForArch`, `probeX86ExtraFeaturesWithCPUID`, `parseLinuxAuxvARM64`,
--   `ReadPolicyFromEnv`.
-- - Microarch/Policy: `SelectVariantForHost` and what it calls.
-- - Microarch/Select: `SelectVariantWithPolicy`, `BestMatchingVariantFor`.
-- - Cgroup/ByteSize: `ParseByteSize` of internal/cgroup/cgroup.go and its helpers. ByteSize/Whole,
--   ByteSize/Frac and ByteSize/Exact have the values of digits that it is compared with.
-- - Cgroup/Floats, Cgroup/Paths: the parameters, `float64` and the file system; Paths has `isSubpath`,
--   `resolveTargetDirectory` and `readTrimmedFile` too.
-- - Cgroup/Memory: `Limits`, its methods, `CalculateGOMEMLIMIT` and internal/cgroup/memory.go.
-- - Cgroup/Environment: `ResolveCPUPolicy` of internal/cgroup/cpu_policy.go and `RuntimeMemoryLimit` of
--   internal/cgroup/batch_gc.go.
-- - Cgroup/Tuning: `TuningPlan`, `ResolveTuningPlanWithProfile` and what it calls, `ResolveBatchGOGC` and
--   `ApplyCPUPolicy`.
-- - Cgroup/Proc: `ScanProcCgroupLine` of internal/cgroup/proc.go and `parseProcCgroup`.
-- - Cgroup/Readers: the readers of the limit files in one directory.
-- - Cgroup/Hierarchy: the loops over parent directories, `readCgroupV1`, `readCgroupV2` and
--   `ReadLimitsCustom`. The four loops are one definition, which takes what is read
--   of a directory and how it is kept. Hierarchy/Source names the directories and files that bounds come from.
-- - Codec/Admission: internal/codec/admission.go.
-- - Pack/Prewarm: internal/pack/prewarm_plan.go. `PlanPrewarmBinary` is modelled from the index on.
-- - Pack/Elf: `validateExecutableELF` of internal/pack/elf.go, on headers that were read.
-- - Pack/Abi: internal/pack/abi.go. The state of a call is the `inputAccounting`, which comes back after
--   an error too. Abi/Accounting has the methods on the budgets, Abi/Reading `readIntoAt` and the byte
--   orders, Abi/Strings `scanBoundedCString`, Abi/Headers `PreflightELFHeadersReaderAt`, Abi/Segments the
--   program headers and `translateVaddr`, Abi/Dynamic the dynamic section, Abi/Versions the chains of
--   version records, Abi/Report `VariantABIReport` and `classifyLinkage`, Abi/Inspect the inspection with
--   `normalizeVersionRequirements`, and Abi/Escape `EscapeMetadata`. Abi/Safe says what each call keeps.
-- - Tests: runs on concrete inputs. Tests/Sample has concrete parameters.
--
-- Parameters: SHA-256, the reader, the writer, `sort.Slice`, the test for CPUs that lower their clock,
-- the CPUID instruction and `os.Getenv`. Of the hash only the 32 bytes of its value are used, of the
-- sort that it permutes, and orders by its comparator where that is a strict weak order. The file of Format/Trailer/Files is a list of bytes.
-- So are `float64` with packages math and strconv on it, files with package path/filepath, the
-- observations of the cache, the decoders, and what the runtime reports of itself. Where a theorem needs
-- more of them it says so: a conversion to `int64` is one, the quotient of positive numbers is a number and
-- rounding stays between the limits, the directory of an absolute path is absolute, and the path itself or
-- shorter. The
-- `io.ReaderAt` of an inspection is one too: a read leaves bytes in its buffer and keeps the length. Of a
-- reader of bytes in memory that is proved.
--
-- Bounds and fuel: the walk down the prerequisites of an ARM64 level has a fuel of 16, and the longest
-- chain, from v9.5 to v8.0, has 12 levels. The loop over the auxiliary vector has the length of the data
-- as its fuel, and each round takes 16 bytes. The scanner of lines has the number of bytes as its fuel, and
-- a line takes one or more; the loop over parent directories has one more than the bytes of the path, and
-- each directory of an absolute path is shorter than the one before. Twenty digits are enough for a number of 64 bits.
-- The scan of a text has one more than the bytes of its table as its fuel, each turn reads a byte or more,
-- and a scan out of fuel would be a panic, which is excluded. The other loops of an inspection
-- count the records that are left, as the source does.
--
-- Simplifications: the texts of errors are left out, an error is the sentinel it wraps. `strings.ToLower`
-- and `strings.TrimSpace` are those of ASCII. A slice ends at its length, not at its capacity.
-- Dates, the operating system and the diagnostics of an `Info` are left out. A pair of a value and a
-- Boolean is an optional value. A file is read whole: the scanner's limit on the length of a line and
-- errors in the middle of a file are not there. The texts of errors in a plan are those of its parameters.
-- In an ABI report the type and the machine are numbers, not their names; level and path, which the
-- caller sets, are left out. `sort.Slice` on requirements, which are distinct, is an insertion sort.
--
-- Not modelled: the comparison of the ABI reports of several variants, payload compression, the caches, memory files, process execution, the other files of
-- internal/pack, the commands, installation, updates, benchmarks and the release tools. They are system
-- calls, calls of other libraries or tools around the program.
pub mod Base
pub mod Result
pub mod Text
pub mod Words
pub mod Format
pub mod Microarch
pub mod Cgroup
pub mod Codec
pub mod Pack
pub mod Tests
