-- ===== src/Config/Gates.antt =====
-- What the config findings decide: which of them gate the verdict, and when none fires.
use claim_ci.Prelude.{
  is_empty, is_empty-append, is_empty-when, any-when, any-empty, ◌≡◌, refl, Bool, false, not, ◌&&◌,
  ◌||◌, [], ◌∷◌, any-append, str_eq, arith, ◌∙◌, any, Bool-cases, inl, inr, bool_laws,
}
use claim_ci.Floats.{Floats}
use claim_ci.Value.{Fields}
use claim_ci.Models.{Finding, any_invalidates, any_insufficient}
use claim_ci.Models.Enums.{is_invalidates, is_insufficient}
use claim_ci.Config.{missing_or_invalid_fields}
use claim_ci.Config.Rules.{
  missing_fields, compute_rule, evaluation_rule, dataset_rule, parameter_rule, learning_rate_rule,
  model_rule, fired_rules, check_configs, compute_mismatch, evaluation_differs, same_at,
  parameter_differences, compute, fairness_verified,
}

module _ (fl : Floats) (b c : Fields) where
  -- A config lacks a documented field.
  abbrev pub incomplete : Bool
  incomplete =
      not (is_empty (missing_or_invalid_fields fl b))
      || not (is_empty (missing_or_invalid_fields fl c))

module _ (fl : Floats) (b c : Fields) where
  fired-invalidates :
      any_invalidates (fired_rules fl b c) ≡ (compute_mismatch fl b c || evaluation_differs fl b c)
  unfolding fired_rules missing_fields compute_rule evaluation_rule dataset_rule parameter_rule
      learning_rate_rule model_rule
  fired-invalidates = simp (any-append, any-when, bool_laws)

  fired-insufficient : any_insufficient (fired_rules fl b c) ≡ incomplete fl b c
  unfolding fired_rules missing_fields compute_rule evaluation_rule dataset_rule parameter_rule
      learning_rate_rule model_rule
  fired-insufficient = simp (any-append, any-when, bool_laws)

  -- Whatever test fails on the finding that no rule fired, `check_configs` answers as its rules.
  check-any :
      (p : Finding → Bool)
      → p (fairness_verified (compute fl b c)) ≡ false
      → any p (check_configs fl b c) ≡ any p (fired_rules fl b c)
  unfolding check_configs
  check-any p h = elim (Bool-cases (is_empty (fired_rules fl b c))) [
    | inl e ↦ rw (e, h, any-empty p _ e)
    | inr e ↦ rw e
  ]

  -- The findings of `check_configs` invalidate a claim exactly when the candidate's compute
  -- reaches the threshold or two complete evaluation mappings differ; they are insufficient
  -- exactly when a config lacks a documented field or has it invalid. No other difference gates.
  pub check_configs-gates :
      (any_invalidates (check_configs fl b c)
        ≡ (compute_mismatch fl b c || evaluation_differs fl b c))
      × (any_insufficient (check_configs fl b c) ≡ incomplete fl b c)
  check_configs-gates = (
    check-any (λ f. is_invalidates f.impact) refl ∙ fired-invalidates,
    check-any (λ f. is_insufficient f.impact) refl ∙ fired-insufficient,
  )

  -- Every compared field agrees, in a complete pair of configs.
  abbrev pub agrees : Bool
  agrees =
      not (incomplete fl b c)
      && (not (compute_mismatch fl b c)
          && (not (evaluation_differs fl b c)
              && (same_at b c ("dataset" ∷ "identifier" ∷ [])
                  && (same_at b c ("dataset" ∷ "version" ∷ [])
                      && (is_empty (parameter_differences b c)
                          && (same_at b c ("learning_rate" ∷ []) && same_at b c ("model" ∷ [])))))))

  fired-is_empty : is_empty (fired_rules fl b c) ≡ agrees
  unfolding fired_rules missing_fields compute_rule evaluation_rule dataset_rule parameter_rule
      learning_rate_rule model_rule
  fired-is_empty = simp (is_empty-append, is_empty-when) (ground arith)

  abbrev pub says_fair : Finding → Bool
  says_fair f = str_eq f.rule_id "CONFIG.FAIRNESS_VERIFIED"

  fired-not_fair : any says_fair (fired_rules fl b c) ≡ false
  unfolding fired_rules missing_fields compute_rule evaluation_rule dataset_rule parameter_rule
      learning_rate_rule model_rule
  fired-not_fair = simp (any-append, any-when, bool_laws)

  -- `check_configs` reports CONFIG.FAIRNESS_VERIFIED exactly when both configs are complete, no
  -- rule gates, and the training dataset, training parameters, learning rate and model agree.
  pub check_configs-fair : any says_fair (check_configs fl b c) ≡ agrees
  unfolding check_configs
  check_configs-fair = elim (Bool-cases (is_empty (fired_rules fl b c))) [
    | inl e ↦ rw (e, ← fired-is_empty, e)
    | inr e ↦ rw (e, ← fired-is_empty, e) fired-not_fair
  ]
