-- ===== src/Microarch/Detect.antt =====
-- The detection of the host in internal/microarch/microarch.go, and the policy of the environment.
-- The CPUID instruction and `os.Getenv` are parameters.
use microfat.Base.{
  ℕ, zero, suc, ◌/◌, ◌%◌, ◌^◌, Bool, false, not, ◌&&◌, ◌||◌, Option, none, some, List, [], ◌∷◌,
  ◌==◌, leb, if◌then◌else◌, length, take, drop, arith, ◌≤◌, ◌≡◌, length-drop, ap,
}
use microfat.Text.{Bytes, codes, bytes_eq, is_empty, to_lower, trim_space}
use microfat.Words.{get_uint}
use microfat.Microarch.Features.{
  X86Features, Arm64Features, extract_x86_feature_list, extract_arm64_feature_list,
}
use microfat.Microarch.Host.{Info, evaluate_amd64}
use microfat.Microarch.Evaluate.{Arm64LevelStatus, evaluate_arm64_detailed}
use microfat.Microarch.Policy.{Policy}

-- `(word & (1 << n)) != 0`
abbrev pub has_bit : ℕ → ℕ → Bool
has_bit n word = (word / 2 ^ n) % 2 == 1

-- EAX to EDX.
pub record Registers : Type 0 where
  pub eax : ℕ
  pub ebx : ℕ
  pub ecx : ℕ
  pub edx : ℕ

pub record X86Extra : Type 0 where
  pub has_f16c : Bool
  pub has_lzcnt : Bool
  pub has_movbe : Bool
  pub has_lahf_sahf : Bool

unfoldable pub probe_x86_extra_features_with_cpuid : (ℕ → ℕ → Registers) → X86Extra
probe_x86_extra_features_with_cpuid query =
    let basic = leb 1 (query 0 0).eax in
    let ext = leb 2147483649 (query 2147483648 0).eax in
    record {
      has_f16c = basic && has_bit 29 (query 1 0).ecx;
      has_lzcnt = ext && has_bit 5 (query 2147483649 0).ecx;
      has_movbe = basic && has_bit 22 (query 1 0).ecx;
      has_lahf_sahf = ext && has_bit 0 (query 2147483649 0).ecx;
    }

-- The features that the auxiliary vector sets; the others stay as they are.
unfoldable pub auxv_entry : ℕ → ℕ → Arm64Features → Arm64Features
auxv_entry tag val f =
    if tag == 16
    then record f { has_gcs = has_bit 32 val }
    else if tag == 26
    then record f {
      has_bf16 = has_bit 14 val;
      has_wfxt = has_bit 31 val;
      has_sme = has_bit 23 val;
      has_sme2 = has_bit 37 val;
      has_mops = has_bit 43 val;
      has_hbc = has_bit 44 val;
    }
    else f

-- The loop over the entries of 16 bytes, each a tag and a value; the rest of the data shrinks.
unfoldable pub parse_auxv : ℕ → Bytes → Arm64Features → Arm64Features
parse_auxv zero bytes f = f
parse_auxv (suc fuel) bytes f =
    let tag = get_uint (take 8 bytes) in
    let val = get_uint (take 8 (drop 8 bytes)) in
    let rest = parse_auxv fuel (drop 16 bytes) (auxv_entry tag val f) in
    if not (leb 16 (length bytes)) || tag == 0 then f else rest

abbrev pub no_arm64_features : Arm64Features
no_arm64_features = record {
  has_fp = false;
  has_asimd = false;
  has_atomics = false;
  has_crc32 = false;
  has_fphp = false;
  has_asimdhp = false;
  has_jscvt = false;
  has_fcma = false;
  has_lrcpc = false;
  has_dcpop = false;
  has_asimddp = false;
  has_dit = false;
  has_sve = false;
  has_sve2 = false;
  has_i8mm = false;
  has_bf16 = false;
  has_wfxt = false;
  has_sme = false;
  has_sme2 = false;
  has_mops = false;
  has_nmi = false;
  has_hbc = false;
  has_gcs = false;
  has_the = false;
  has_aes = false;
  has_pmull = false;
  has_sha1 = false;
  has_sha2 = false;
  has_sha3 = false;
  has_sha512 = false;
  has_sm3 = false;
  has_sm4 = false;
  has_asimdfhm = false;
  has_asimdrdm = false;
}

unfoldable pub parse_linux_auxv_arm64 : Bytes → Arm64Features
parse_linux_auxv_arm64 bytes = parse_auxv (length bytes) bytes no_arm64_features

-- The level and the features of an ARM64 host, without the statuses.
unfoldable pub arm64_info :
    Bytes → Arm64Features → Option (Bytes × List Arm64LevelStatus) → Option Info
arm64_info goarch f none = none
arm64_info goarch f (some (level, statuses)) =
    some (record { arch = goarch; level = level; features = extract_arm64_feature_list f })

-- `detectForArch`; `none` means that the fuel of the evaluation ran out.
unfoldable pub detect_for_arch : Bytes → X86Features → Arm64Features → Option Info
detect_for_arch goarch x86_feat arm_feat =
    if bytes_eq goarch (codes "amd64")
    then some (record {
      arch = goarch;
      level = evaluate_amd64 x86_feat;
      features = extract_x86_feature_list x86_feat;
    })
    else if bytes_eq goarch (codes "arm64")
    then arm64_info goarch arm_feat (evaluate_arm64_detailed arm_feat)
    else some (record { arch = goarch; level = codes "v1"; features = [] })

-- `strings.Split(s, ",")`
unfoldable pub split_comma : Bytes → List Bytes
split_comma [] = [] ∷ []
split_comma (c ∷ s) = let rest = split_comma s in if c == b',' then [] ∷ rest else onto c rest
  where
    onto : ℕ → List Bytes → List Bytes
    onto c [] = (c ∷ []) ∷ []
    onto c (t ∷ ts) = (c ∷ t) ∷ ts

-- The parts that are not empty, without the spaces around them.
unfoldable pub trimmed_parts : List Bytes → List Bytes
trimmed_parts [] = []
trimmed_parts (v ∷ vs) =
    let rest = trimmed_parts vs in
    if not (is_empty (trim_space v)) then trim_space v ∷ rest else rest

unfoldable pub read_disabled : Bytes → List Bytes
read_disabled dis = if not (is_empty dis) then trimmed_parts (split_comma dis) else []

unfoldable pub read_policy_from_env : (Bytes → Bytes) → Policy
read_policy_from_env getenv =
    let name = to_lower (trim_space (getenv (codes "MICROFAT_POLICY"))) in
    let avx_val = to_lower (trim_space (getenv (codes "MICROFAT_AVX512_DOWNCLOCK_PROTECTION"))) in
    record {
      name = name;
      force_level = trim_space (getenv (codes "MICROFAT_FORCE_LEVEL"));
      max_level = trim_space (getenv (codes "MICROFAT_MAX_LEVEL"));
      disabled_variants = read_disabled (trim_space (getenv (codes "MICROFAT_DISABLE_VARIANTS")));
      avx512_downclock_protection =
          bytes_eq avx_val (codes "1")
          || bytes_eq avx_val (codes "true")
          || bytes_eq avx_val (codes "yes")
          || bytes_eq avx_val (codes "on")
          || bytes_eq name (codes "safe_avx512")
          || bytes_eq name (codes "no_downclock");
    }

-- Fuel for the length of the data is enough: the vector ends before the fuel does, so that more fuel
-- gives the same features.
pub parse_auxv-enough :
    (fuel : ℕ) (bytes : Bytes) (f : Arm64Features)
    → length bytes ≤ fuel
    → parse_auxv (suc fuel) bytes f ≡ parse_auxv fuel bytes f
unfolding parse_auxv
parse_auxv-enough zero bytes f h = ground arith
parse_auxv-enough (suc fuel) bytes f h =
    let shorter = length-drop 16 bytes in
    let next = auxv_entry (get_uint (take 8 bytes)) (get_uint (take 8 (drop 8 bytes))) f in
    let rest = parse_auxv-enough fuel (drop 16 bytes) next (omega (arith, shorter)) in
    ap (λ r. if not (leb 16 (length bytes)) || get_uint (take 8 bytes) == 0 then f else r) rest
