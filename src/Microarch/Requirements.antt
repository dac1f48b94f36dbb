-- ===== src/Microarch/Requirements.antt =====
-- The requirements of the ARM64 levels of internal/microarch/microarch.go, and whether a host meets
-- them. The text of `SourceDoc` is left out.
use microfat.Base.{Bool, true, ◌&&◌, List, [], ◌∷◌}
use microfat.Text.{Bytes, codes}
use microfat.Microarch.Features.{Arm64Features}

pub record LevelRequirement : Type 0 where
  pub level : Bytes
  pub prereqs : List Bytes
  pub required_features : List Bytes
  pub check_features : Arm64Features → Bool

unfoldable pub arm64_level_requirements : List LevelRequirement
arm64_level_requirements =
    record {
      level = codes "v8.0";
      prereqs = [];
      required_features = codes "fp" ∷ codes "asimd" ∷ [];
      check_features = λ f. f.has_fp && f.has_asimd;
    }
    ∷ record {
      level = codes "v8.1";
      prereqs = codes "v8.0" ∷ [];
      required_features = codes "atomics" ∷ codes "crc32" ∷ [];
      check_features = λ f. f.has_atomics && f.has_crc32;
    }
    ∷ record {
      level = codes "v8.2";
      prereqs = codes "v8.1" ∷ [];
      required_features = codes "fphp" ∷ codes "asimdhp" ∷ [];
      check_features = λ f. f.has_fphp && f.has_asimdhp;
    }
    ∷ record {
      level = codes "v8.3";
      prereqs = codes "v8.2" ∷ [];
      required_features = codes "jscvt" ∷ codes "fcma" ∷ codes "lrcpc" ∷ [];
      check_features = λ f. f.has_jscvt && f.has_fcma && f.has_lrcpc;
    }
    ∷ record {
      level = codes "v8.4";
      prereqs = codes "v8.3" ∷ [];
      required_features = codes "dcpop" ∷ codes "asimddp" ∷ [];
      check_features = λ f. f.has_dcpop && f.has_asimddp;
    }
    ∷ record {
      level = codes "v8.5";
      prereqs = codes "v8.4" ∷ [];
      required_features = codes "dit" ∷ [];
      check_features = λ f. f.has_dit;
    }
    ∷ record {
      level = codes "v8.6";
      prereqs = codes "v8.5" ∷ [];
      required_features = codes "i8mm" ∷ codes "bf16" ∷ [];
      check_features = λ f. f.has_i8mm && f.has_bf16;
    }
    ∷ record {
      level = codes "v8.7";
      prereqs = codes "v8.6" ∷ [];
      required_features = codes "wfxt" ∷ [];
      check_features = λ f. f.has_wfxt;
    }
    ∷ record {
      level = codes "v8.8";
      prereqs = codes "v8.7" ∷ [];
      required_features = codes "mops" ∷ codes "nmi" ∷ codes "hbc" ∷ [];
      check_features = λ f. f.has_mops && f.has_nmi && f.has_hbc;
    }
    ∷ record {
      level = codes "v8.9";
      prereqs = codes "v8.8" ∷ [];
      required_features = codes "gcs" ∷ codes "the" ∷ [];
      check_features = λ f. f.has_gcs && f.has_the;
    }
    ∷ record {
      level = codes "v9.0";
      prereqs = codes "v8.5" ∷ [];
      required_features = codes "sve" ∷ [];
      check_features = λ f. f.has_sve;
    }
    ∷ record {
      level = codes "v9.1";
      prereqs = codes "v9.0" ∷ codes "v8.6" ∷ [];
      required_features = [];
      check_features = λ f. true;
    }
    ∷ record {
      level = codes "v9.2";
      prereqs = codes "v9.1" ∷ [];
      required_features = codes "sve2" ∷ [];
      check_features = λ f. f.has_sve2;
    }
    ∷ record {
      level = codes "v9.3";
      prereqs = codes "v9.2" ∷ [];
      required_features = codes "sme" ∷ [];
      check_features = λ f. f.has_sme;
    }
    ∷ record {
      level = codes "v9.4";
      prereqs = codes "v9.3" ∷ [];
      required_features = [];
      check_features = λ f. true;
    }
    ∷ record {
      level = codes "v9.5";
      prereqs = codes "v9.4" ∷ [];
      required_features = codes "sme2" ∷ [];
      check_features = λ f. f.has_sme2;
    }
    ∷ []
