-- ===== src/Pack/Abi/Inspect/Linkage.antt =====
-- Lemmas on `classifyLinkage`.
use microfat.Base.{
  ℕ, ◌≡◌, ◌≢◌, refl, ◌⊎◌, inl, inr, Bool, true, false, List, [], ◌∷◌, ◌==◌, length, arith,
  if◌then◌else◌, if-cases,
}
use microfat.Text.{Bytes}
use microfat.Pack.Abi.Report.{
  VariantAbiReport, static, static_pie, dynamic, ambiguous, classify_linkage, classify_static, warn,
}
use microfat.Pack.Abi.Inspect.Safe.{Sound}

-- The linkage follows from the interpreter and the dependencies.
pub record IsClassified (report : VariantAbiReport) : Type 0 where
  pub with_interpreter : report.has_interpreter ≡ true → report.linkage ≡ dynamic
  pub without_dependencies :
      report.has_interpreter ≡ false
      → report.dependencies ≡ []
      → (report.linkage ≡ static) ⊎ (report.linkage ≡ static_pie)
  pub without_interpreter :
      report.has_interpreter ≡ false → report.dependencies ≢ [] → report.linkage ≡ ambiguous

length-nil : (deps : List Bytes) → (length deps == 0) ≡ true → deps ≡ []
length-nil [] h = refl
length-nil (d ∷ deps) h = absurd (ground arith)

length-cons : (deps : List Bytes) → (length deps == 0) ≡ false → deps ≢ []
length-cons [] h = absurd (ground arith)
length-cons (d ∷ deps) h = λ e. cc

if_form :
    (b : Bool)
    → ((if b then static_pie else static) ≡ static)
      ⊎ ((if b then static_pie else static) ≡ static_pie)
if_form true = inr refl
if_form false = inl refl

module _ (report : VariantAbiReport) (e_type : ℕ) where
  classify_static-IsClassified :
      report.has_interpreter ≡ false
      → report.dependencies ≡ []
      → IsClassified (classify_static report e_type)
  unfolding classify_static
  classify_static-IsClassified without nil = record {
    with_interpreter = λ h. cc;
    without_dependencies = λ h k. if_form (e_type == 3);
    without_interpreter = λ h k. absurd (k nil);
  }

  warn-IsClassified :
      (text : Bytes)
      → report.has_interpreter ≡ false
      → report.dependencies ≢ []
      → IsClassified (warn text (record report { linkage = ambiguous }))
  unfolding warn
  warn-IsClassified text without any = record {
    with_interpreter = λ h. cc;
    without_dependencies = λ h k. absurd (any k);
    without_interpreter = λ h k. refl;
  }

  -- Each way that the linkage is classified.
  classify_linkage-cases :
      (P : VariantAbiReport → Type 0)
      → (report.has_interpreter ≡ true → P (record report { linkage = dynamic }))
      → (report.has_interpreter ≡ false
          → report.dependencies ≡ []
          → P (classify_static report e_type))
      → ((text : Bytes)
          → report.has_interpreter ≡ false
          → report.dependencies ≢ []
          → P (warn text (record report { linkage = ambiguous })))
      → P (classify_linkage report e_type)
  unfolding classify_linkage
  classify_linkage-cases P a b c = if-cases P report.has_interpreter _ _ a λ without.
      if-cases P (length report.dependencies == 0) _ _
        (λ nil. b without (length-nil report.dependencies nil))
        (λ any. c _ without (length-cons report.dependencies any))

  pub classify_linkage-IsClassified : IsClassified (classify_linkage report e_type)
  classify_linkage-IsClassified =
      classify_linkage-cases IsClassified
        (λ has. record {
          with_interpreter = λ h. refl;
          without_dependencies = λ h k. cc;
          without_interpreter = λ h k. cc;
        })
        (λ without nil. classify_static-IsClassified without nil)
        (λ text without any. warn-IsClassified text without any)

  pub classify_linkage-Sound : Sound report → Sound (classify_linkage report e_type)
  unfolding classify_static warn
  classify_linkage-Sound sound =
      classify_linkage-cases Sound
        (λ h. record {
          interpreter_ok = sound.interpreter_ok;
          dependencies_ok = sound.dependencies_ok;
          requirements_ok = sound.requirements_ok;
        })
        (λ h k. record {
          interpreter_ok = sound.interpreter_ok;
          dependencies_ok = sound.dependencies_ok;
          requirements_ok = sound.requirements_ok;
        })
        (λ t h k. record {
          interpreter_ok = sound.interpreter_ok;
          dependencies_ok = sound.dependencies_ok;
          requirements_ok = sound.requirements_ok;
        })
