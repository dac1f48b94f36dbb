-- ===== src/Microarch/Features.antt =====
-- The detected CPU features of internal/microarch/microarch.go, and their names.
use microfat.Base.{Bool, false, List, [], ◌∷◌, ◌++◌, if◌then◌else◌}
use microfat.Text.{Bytes, codes}
use microfat.Microarch.Level.{switch}

pub record X86Features : Type 0 where
  pub has_lahf_sahf : Bool
  pub has_cx16 : Bool
  pub has_popcnt : Bool
  pub has_sse3 : Bool
  pub has_ssse3 : Bool
  pub has_sse41 : Bool
  pub has_sse42 : Bool
  pub has_avx : Bool
  pub has_avx2 : Bool
  pub has_bmi1 : Bool
  pub has_bmi2 : Bool
  pub has_fma : Bool
  pub has_osxsave : Bool
  pub has_f16c : Bool
  pub has_lzcnt : Bool
  pub has_movbe : Bool
  pub has_avx512f : Bool
  pub has_avx512bw : Bool
  pub has_avx512cd : Bool
  pub has_avx512dq : Bool
  pub has_avx512vl : Bool

pub record Arm64Features : Type 0 where
  pub has_fp : Bool
  pub has_asimd : Bool
  pub has_atomics : Bool
  pub has_crc32 : Bool
  pub has_fphp : Bool
  pub has_asimdhp : Bool
  pub has_jscvt : Bool
  pub has_fcma : Bool
  pub has_lrcpc : Bool
  pub has_dcpop : Bool
  pub has_asimddp : Bool
  pub has_dit : Bool
  pub has_sve : Bool
  pub has_sve2 : Bool
  pub has_i8mm : Bool
  pub has_bf16 : Bool
  pub has_wfxt : Bool
  pub has_sme : Bool
  pub has_sme2 : Bool
  pub has_mops : Bool
  pub has_nmi : Bool
  pub has_hbc : Bool
  pub has_gcs : Bool
  pub has_the : Bool
  pub has_aes : Bool
  pub has_pmull : Bool
  pub has_sha1 : Bool
  pub has_sha2 : Bool
  pub has_sha3 : Bool
  pub has_sha512 : Bool
  pub has_sm3 : Bool
  pub has_sm4 : Bool
  pub has_asimdfhm : Bool
  pub has_asimdrdm : Bool

-- `if f.HasX { list = append(list, "x") }`, one flag after the other.
unfoldable pub listed : List (Bool × Bytes) → List Bytes
listed [] = []
listed ((has, name) ∷ flags) = if has then name ∷ listed flags else listed flags

unfoldable pub x86_flags : X86Features → List (Bool × Bytes)
x86_flags f =
    (f.has_lahf_sahf, codes "lahf_lm")
    ∷ (f.has_cx16, codes "cx16")
    ∷ (f.has_popcnt, codes "popcnt")
    ∷ (f.has_sse3, codes "sse3")
    ∷ (f.has_ssse3, codes "ssse3")
    ∷ (f.has_sse41, codes "sse4.1")
    ∷ (f.has_sse42, codes "sse4.2")
    ∷ (f.has_avx, codes "avx")
    ∷ (f.has_avx2, codes "avx2")
    ∷ (f.has_bmi1, codes "bmi1")
    ∷ (f.has_bmi2, codes "bmi2")
    ∷ (f.has_fma, codes "fma")
    ∷ (f.has_osxsave, codes "osxsave")
    ∷ (f.has_f16c, codes "f16c")
    ∷ (f.has_lzcnt, codes "lzcnt")
    ∷ (f.has_movbe, codes "movbe")
    ∷ (f.has_avx512f, codes "avx512f")
    ∷ (f.has_avx512bw, codes "avx512bw")
    ∷ (f.has_avx512cd, codes "avx512cd")
    ∷ (f.has_avx512dq, codes "avx512dq")
    ∷ (f.has_avx512vl, codes "avx512vl")
    ∷ []

unfoldable pub extract_x86_feature_list : X86Features → List Bytes
extract_x86_feature_list f = listed (x86_flags f)

unfoldable pub simd_flags : Arm64Features → List (Bool × Bytes)
simd_flags f =
    (f.has_fp, codes "fp")
    ∷ (f.has_asimd, codes "asimd")
    ∷ (f.has_fphp, codes "fphp")
    ∷ (f.has_asimdhp, codes "asimdhp")
    ∷ (f.has_asimddp, codes "asimddp")
    ∷ (f.has_sve, codes "sve")
    ∷ (f.has_sve2, codes "sve2")
    ∷ (f.has_i8mm, codes "i8mm")
    ∷ (f.has_bf16, codes "bf16")
    ∷ (f.has_sme, codes "sme")
    ∷ (f.has_sme2, codes "sme2")
    ∷ (f.has_asimdfhm, codes "asimdfhm")
    ∷ (f.has_asimdrdm, codes "asimdrdm")
    ∷ []

unfoldable pub crypto_flags : Arm64Features → List (Bool × Bytes)
crypto_flags f =
    (f.has_aes, codes "aes")
    ∷ (f.has_pmull, codes "pmull")
    ∷ (f.has_sha1, codes "sha1")
    ∷ (f.has_sha2, codes "sha2")
    ∷ (f.has_sha3, codes "sha3")
    ∷ (f.has_sha512, codes "sha512")
    ∷ (f.has_sm3, codes "sm3")
    ∷ (f.has_sm4, codes "sm4")
    ∷ []

unfoldable pub core_flags : Arm64Features → List (Bool × Bytes)
core_flags f =
    (f.has_atomics, codes "atomics")
    ∷ (f.has_crc32, codes "crc32")
    ∷ (f.has_jscvt, codes "jscvt")
    ∷ (f.has_fcma, codes "fcma")
    ∷ (f.has_lrcpc, codes "lrcpc")
    ∷ (f.has_dcpop, codes "dcpop")
    ∷ (f.has_dit, codes "dit")
    ∷ (f.has_wfxt, codes "wfxt")
    ∷ (f.has_mops, codes "mops")
    ∷ (f.has_nmi, codes "nmi")
    ∷ (f.has_hbc, codes "hbc")
    ∷ (f.has_gcs, codes "gcs")
    ∷ (f.has_the, codes "the")
    ∷ []

unfoldable pub extract_arm64_feature_list : Arm64Features → List Bytes
extract_arm64_feature_list f =
    listed (simd_flags f) ++ (listed (crypto_flags f) ++ listed (core_flags f))

-- `hasARM64NamedFeature`
unfoldable pub named_flags : Arm64Features → List (Bytes × Bool)
named_flags f =
    (codes "fp", f.has_fp)
    ∷ (codes "asimd", f.has_asimd)
    ∷ (codes "atomics", f.has_atomics)
    ∷ (codes "crc32", f.has_crc32)
    ∷ (codes "fphp", f.has_fphp)
    ∷ (codes "asimdhp", f.has_asimdhp)
    ∷ (codes "jscvt", f.has_jscvt)
    ∷ (codes "fcma", f.has_fcma)
    ∷ (codes "lrcpc", f.has_lrcpc)
    ∷ (codes "dcpop", f.has_dcpop)
    ∷ (codes "asimddp", f.has_asimddp)
    ∷ (codes "dit", f.has_dit)
    ∷ (codes "i8mm", f.has_i8mm)
    ∷ (codes "bf16", f.has_bf16)
    ∷ (codes "wfxt", f.has_wfxt)
    ∷ (codes "sve", f.has_sve)
    ∷ (codes "sve2", f.has_sve2)
    ∷ (codes "sme", f.has_sme)
    ∷ (codes "sme2", f.has_sme2)
    ∷ (codes "mops", f.has_mops)
    ∷ (codes "nmi", f.has_nmi)
    ∷ (codes "hbc", f.has_hbc)
    ∷ (codes "gcs", f.has_gcs)
    ∷ (codes "the", f.has_the)
    ∷ []

unfoldable pub has_arm64_named_feature : Bytes → Arm64Features → Bool
has_arm64_named_feature name f = switch name (named_flags f) false
