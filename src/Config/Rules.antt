-- ===== src/Config/Rules.antt =====
-- The seven rules of `check_configs`, in its order, and the finding that no rule fired.
use claim_ci.Prelude.{
  Bool, true, false, not, ◌&&◌, ◌||◌, Option, none, some, List, [], ◌∷◌, ◌++◌, when, is_empty,
  String, if◌then◌else◌,
}
use claim_ci.Decimal.{Decimal}
use claim_ci.Floats.{Floats}
use claim_ci.Value.{Value, Fields, eq_lookup}
use claim_ci.Models.{Finding, Evidence, Datum}
use claim_ci.Models.Enums.{Severity, Impact}
use claim_ci.Config.{
  Basis, steps_batch, steps, epochs_batch, epochs, read, missing_or_invalid_fields,
  evaluation_mapping_complete, compute_proxies, choose_basis, ratio_for_evidence, at_least_ratio,
  compute_ratio_threshold,
}

-- A looked up value in the evidence: `None` where it is missing.
abbrev pub shown : Option Value → Datum
shown none = Datum.nothing
shown (some v) = Datum.value v

abbrev pub spelled : Option Decimal → Datum
spelled none = Datum.nothing
spelled (some d) = Datum.spelled d

abbrev pub basis_name : Basis → String
basis_name steps_batch = "training_steps*batch_size"
basis_name steps = "training_steps"
basis_name epochs_batch = "epochs*batch_size"
basis_name epochs = "epochs"

-- What `check_configs` computes before the compute rule.
pub record Compute : Type 0 where
  pub basis : Option Basis
  pub baseline_proxy : Option Decimal
  pub candidate_proxy : Option Decimal

abbrev pub proxy_at : (Basis → Option Decimal) → Option Basis → Option Decimal
proxy_at proxies none = none
proxy_at proxies (some b) = proxies b

unfoldable pub compute : Floats → Fields → Fields → Compute
compute fl baseline candidate =
    let basis = choose_basis (compute_proxies fl baseline) (compute_proxies fl candidate) in
    record {
      basis = basis;
      baseline_proxy = proxy_at (compute_proxies fl baseline) basis;
      candidate_proxy = proxy_at (compute_proxies fl candidate) basis;
    }

abbrev pub mismatch_of : Option Decimal → Option Decimal → Bool
mismatch_of (some b) (some c) = at_least_ratio c b compute_ratio_threshold
mismatch_of (some b) none = false
mismatch_of none _ = false

unfoldable pub compute_mismatch : Floats → Fields → Fields → Bool
unfolding compute
compute_mismatch fl baseline candidate =
    let c = compute fl baseline candidate in mismatch_of c.baseline_proxy c.candidate_proxy

abbrev pub ratio_of : Option Decimal → Option Decimal → Option Decimal
ratio_of (some b) (some c) = some (ratio_for_evidence c b)
ratio_of (some b) none = none
ratio_of none _ = none

abbrev pub proxy_evidence : Compute → Evidence
proxy_evidence c =
    ("baseline_proxy", spelled c.baseline_proxy)
    ∷ ("candidate_proxy", spelled c.candidate_proxy)
    ∷ ("ratio", spelled (ratio_of c.baseline_proxy c.candidate_proxy))
    ∷ ("basis", elim c.basis [ none ↦ Datum.nothing | some b ↦ Datum.text (basis_name b) ])
    ∷ []

unfoldable pub missing_fields : Floats → Fields → Fields → List Finding
missing_fields fl baseline candidate =
    let b = missing_or_invalid_fields fl baseline in
    let c = missing_or_invalid_fields fl candidate in
    when (not (is_empty b) || not (is_empty c)) (
      record {
        rule_id = "CONFIG.MISSING_FIELDS";
        severity = Severity.warning;
        evidence = ("baseline", Datum.texts b) ∷ ("candidate", Datum.texts c) ∷ [];
        impact = Impact.insufficient;
      }
      ∷ [])

unfoldable pub compute_rule : Floats → Fields → Fields → List Finding
compute_rule fl baseline candidate = when (compute_mismatch fl baseline candidate) (
    record {
      rule_id = "CONFIG.COMPUTE_MISMATCH";
      severity = Severity.critical;
      evidence =
          proxy_evidence (compute fl baseline candidate)
          ++ ("threshold", Datum.spelled compute_ratio_threshold)
            ∷ ("exact_threshold_comparison", Datum.flag true)
            ∷ [];
      impact = Impact.invalidates;
    }
    ∷ [])

unfoldable pub evaluation_differs : Floats → Fields → Fields → Bool
evaluation_differs fl baseline candidate =
    evaluation_mapping_complete fl baseline
    && (evaluation_mapping_complete fl candidate
        && not (eq_lookup (read baseline ("evaluation" ∷ [])) (read candidate ("evaluation" ∷ []))))

unfoldable pub evaluation_rule : Floats → Fields → Fields → List Finding
evaluation_rule fl baseline candidate = when (evaluation_differs fl baseline candidate) (
    record {
      rule_id = "CONFIG.EVALUATION_MISMATCH";
      severity = Severity.critical;
      evidence =
          ("baseline", shown (read baseline ("evaluation" ∷ [])))
          ∷ ("candidate", shown (read candidate ("evaluation" ∷ [])))
          ∷ [];
      impact = Impact.invalidates;
    }
    ∷ [])

-- Equality of a config's value at a path.
unfoldable pub same_at : Fields → Fields → List String → Bool
same_at baseline candidate path = eq_lookup (read baseline path) (read candidate path)

abbrev pub dataset_shown : Fields → Datum
dataset_shown config =
    Datum.pair (shown (read config ("dataset" ∷ "identifier" ∷ [])))
      (shown (read config ("dataset" ∷ "version" ∷ [])))

unfoldable pub dataset_rule : Fields → Fields → List Finding
dataset_rule baseline candidate =
    when
      (not (
        same_at baseline candidate ("dataset" ∷ "identifier" ∷ [])
        && same_at baseline candidate ("dataset" ∷ "version" ∷ [])))
      (record {
        rule_id = "CONFIG.TRAINING_DATASET_MISMATCH";
        severity = Severity.warning;
        evidence =
            ("baseline", dataset_shown baseline) ∷ ("candidate", dataset_shown candidate) ∷ [];
        impact = Impact.none;
      }
        ∷ [])

abbrev pub difference_at : Fields → Fields → String → Evidence
difference_at baseline candidate field = when (not (same_at baseline candidate (field ∷ []))) (
    (field, Datum.pair (shown (read baseline (field ∷ []))) (shown (read candidate (field ∷ []))))
    ∷ [])

unfoldable pub parameter_differences : Fields → Fields → Evidence
parameter_differences baseline candidate =
    difference_at baseline candidate "training_steps"
    ++ (difference_at baseline candidate "epochs" ++ difference_at baseline candidate "batch_size")

-- The differences come first in the evidence, under the names of their fields.
unfoldable pub parameter_rule : Floats → Fields → Fields → List Finding
parameter_rule fl baseline candidate =
    let differences = parameter_differences baseline candidate in
    when (not (is_empty differences) && not (compute_mismatch fl baseline candidate)) (
      record {
        rule_id = "CONFIG.TRAINING_PARAMETER_DIFFERENCE";
        severity = Severity.warning;
        evidence = differences ++ proxy_evidence (compute fl baseline candidate);
        impact = Impact.none;
      }
      ∷ [])

unfoldable pub field_rule : String → Severity → String → Fields → Fields → List Finding
field_rule rule severity field baseline candidate =
    when (not (same_at baseline candidate (field ∷ []))) (
      record {
        rule_id = rule;
        severity = severity;
        evidence =
            ("baseline", shown (read baseline (field ∷ [])))
            ∷ ("candidate", shown (read candidate (field ∷ [])))
            ∷ [];
        impact = Impact.none;
      }
      ∷ [])

unfoldable pub learning_rate_rule : Fields → Fields → List Finding
unfolding field_rule
learning_rate_rule = field_rule "CONFIG.LEARNING_RATE_DIFFERENCE" Severity.warning "learning_rate"

unfoldable pub model_rule : Fields → Fields → List Finding
unfolding field_rule
model_rule = field_rule "CONFIG.MODEL_DIFFERENCE" Severity.info "model"

abbrev pub fairness_verified : Compute → Finding
fairness_verified c = record {
  rule_id = "CONFIG.FAIRNESS_VERIFIED";
  severity = Severity.verified;
  evidence = proxy_evidence c;
  impact = Impact.none;
}

unfoldable pub fired_rules : Floats → Fields → Fields → List Finding
fired_rules fl baseline candidate =
    missing_fields fl baseline candidate
    ++ (compute_rule fl baseline candidate
        ++ (evaluation_rule fl baseline candidate
            ++ (dataset_rule baseline candidate
                ++ (parameter_rule fl baseline candidate
                    ++ (learning_rate_rule baseline candidate ++ model_rule baseline candidate)))))

-- Both configs are mappings, which the loader ensures.
unfoldable pub check_configs : Floats → Fields → Fields → List Finding
check_configs fl baseline candidate =
    let findings = fired_rules fl baseline candidate in
    if is_empty findings then fairness_verified (compute fl baseline candidate) ∷ [] else findings
