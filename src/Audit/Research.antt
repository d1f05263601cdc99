-- ===== src/Audit/Research.antt =====
-- `determine_verdict` and `audit_research`, called without measurement and streaming contexts.
use claim_ci.Prelude.{
  Bool, true, false, not, Option, none, some, List, [], ◌∷◌, ◌++◌, String, str_eq, if◌then◌else◌,
}
use claim_ci.Value.{Float}
use claim_ci.Models.{
  Result, ok, err, bad_identity, uncaught, is_uncaught, ◌>>=◌, ◌>>◌, require, or_raise, Finding,
  Evidence, Datum, OverlapSummary, DirectionValue, any_invalidates, any_insufficient,
}
use claim_ci.Models.Enums.{Severity, Impact, Verdict, Direction}
use claim_ci.World.{World, load_config}
use claim_ci.Config.Rules.{check_configs}
use claim_ci.Dataset.{load_dataset, check_dataset_leakage, check_evaluation_alignment}
use claim_ci.Results.{LoadedResults, load_results}
use claim_ci.Results.Check.{ResultCheck, check_results}
use claim_ci.Audit.Paths.{Paths, ExperimentPaths}
use claim_ci.Audit.Spec.{ResearchSpec, load_research_spec}

unfoldable pub determine_verdict : List Finding → Verdict
determine_verdict findings =
    if any_invalidates findings
    then Verdict.not_supported
    else if any_insufficient findings
    then Verdict.insufficient_evidence
    else Verdict.supported

pub data Category : Type 0 where
  config_artifact result_artifact dataset_artifact : Category

-- `f"{category}.{'MISSING' if missing else 'INVALID'}"`
abbrev pub failure_rule : Category → Bool → String
failure_rule config_artifact true = "CONFIG.MISSING"
failure_rule config_artifact false = "CONFIG.INVALID"
failure_rule result_artifact true = "RESULT.MISSING"
failure_rule result_artifact false = "RESULT.INVALID"
failure_rule dataset_artifact true = "DATASET.MISSING"
failure_rule dataset_artifact false = "DATASET.INVALID"

-- `_artifact_failure`
unfoldable pub artifact_failure : World → Category → String → String → Result Finding
artifact_failure w category experiment path = do
  present ← or_raise (w.exists path) uncaught
  ok (record {
    rule_id = failure_rule category (not present);
    severity = Severity.critical;
    evidence = ("experiment", Datum.text experiment) ∷ ("path", Datum.text path) ∷ [];
    impact = Impact.insufficient;
  })

-- What a loader that raises `ClaimCIError` adds to the findings; other exceptions are not caught.
unfoldable pub failed {ℓ} :
    {A : Type ℓ} → World → Category → String → String → Result A → Result (List Finding)
unfolding artifact_failure
failed w category experiment path (ok a) = ok []
failed w category experiment path (err e) =
    if is_uncaught e
    then err e
    else artifact_failure w category experiment path >>= λ finding. ok (finding ∷ [])

-- What is done where both of a pair were loaded.
abbrev pub with_both {ℓ κ} : {A : Type ℓ} {B : Type κ} → B → (A → A → B) → Result A → Result A → B
with_both otherwise f (ok x) (ok y) = f x y
with_both otherwise f (ok x) (err e) = otherwise
with_both otherwise f (err d) y = otherwise

-- The loop over a pair of artifacts, and what follows where both were loaded.
unfoldable pub pair_findings {ℓ} :
    {A : Type ℓ}
    → World
    → Category
    → String
    → String
    → String
    → String
    → Result A
    → Result A
    → (Result A → Result A → List Finding)
    → Result (List Finding)
unfolding failed
pair_findings w category d e p q m n rest = do
  first ← failed w category d p m
  second ← failed w category e q n
  ok (first ++ (second ++ rest m n))

abbrev pub config_loaded : ResearchSpec → Finding
config_loaded spec = record {
  rule_id = "CONFIG.LOADED";
  severity = Severity.verified;
  evidence =
      ("baseline", Datum.text spec.baseline.config)
      ∷ ("candidate", Datum.text spec.candidate.config)
      ∷ [];
  impact = Impact.none;
}

unfoldable pub config_findings : World → ResearchSpec → Result (List Finding)
unfolding pair_findings
config_findings w spec =
    pair_findings w config_artifact "baseline" "candidate" spec.baseline.config
      spec.candidate.config (load_config w spec.baseline.config)
      (load_config w spec.candidate.config)
      (with_both [] (λ x y. config_loaded spec ∷ check_configs w.floats x y))

abbrev pub comparison_failed : ResearchSpec → Finding
comparison_failed spec = record {
  rule_id = "RESULT.INVALID";
  severity = Severity.critical;
  evidence =
      ("experiment", Datum.text "comparison")
      ∷ ("baseline_path", Datum.text spec.baseline.results)
      ∷ ("candidate_path", Datum.text spec.candidate.results)
      ∷ [];
  impact = Impact.insufficient;
}

-- `check_results` where both results were loaded
unfoldable pub compared_results :
    World → ResearchSpec → Result LoadedResults → Result LoadedResults → Option (Result ResultCheck)
compared_results w spec = with_both none (λ x y.
    some (
      check_results w.floats x y spec.minimum_improvement
        (DirectionValue.direction spec.direction)))

abbrev pub comparison_findings : ResearchSpec → Option (Result ResultCheck) → List Finding
comparison_findings spec none = []
comparison_findings spec (some (err e)) = comparison_failed spec ∷ []
comparison_findings spec (some (ok checked)) = checked.findings

abbrev pub comparison_value : Option (Result ResultCheck) → Option ResultCheck
comparison_value none = none
comparison_value (some (err e)) = none
comparison_value (some (ok checked)) = some checked

unfoldable pub result_findings : World → ResearchSpec → Result (List Finding)
unfolding pair_findings compared_results
result_findings w spec =
    pair_findings w result_artifact "baseline" "candidate" spec.baseline.results
      spec.candidate.results (load_results w spec.baseline.results spec.metric)
      (load_results w spec.candidate.results spec.metric)
      (λ m n. comparison_findings spec (compared_results w spec m n))

-- One experiment's splits, and the leakage between them.
unfoldable pub split_findings : World → String → ExperimentPaths → Result (List Finding)
unfolding pair_findings
split_findings w experiment paths =
    pair_findings w dataset_artifact experiment experiment paths.train_dataset paths.eval_dataset
      (load_dataset w paths.train_dataset) (load_dataset w paths.eval_dataset)
      (with_both [] (λ x y. (check_dataset_leakage experiment x y).1))

unfoldable pub split_overlaps : World → String → ExperimentPaths → List OverlapSummary
split_overlaps w experiment paths =
    with_both [] (λ x y. (check_dataset_leakage experiment x y).0 ∷ [])
      (load_dataset w paths.train_dataset) (load_dataset w paths.eval_dataset)

unfoldable pub dataset_findings : World → ResearchSpec → Result (List Finding)
unfolding split_findings
dataset_findings w spec = do
  baseline ← split_findings w "baseline" spec.baseline
  candidate ← split_findings w "candidate" spec.candidate
  ok (
      baseline
      ++ (candidate
          ++ with_both [] check_evaluation_alignment (load_dataset w spec.baseline.eval_dataset)
              (load_dataset w spec.candidate.eval_dataset)))

-- A trusted context that binds the metric's identity.
pub record MetricIdentity : Type 0 where
  pub canonical_metric : String
  pub material : Evidence

-- `_metric_identity_finding`, where there is a context
unfoldable pub metric_identity_finding : Option MetricIdentity → String → Result (List Finding)
metric_identity_finding none metric = ok []
metric_identity_finding (some context) metric = do
  require (str_eq context.canonical_metric metric) bad_identity
  ok (
      record {
        rule_id = "RESULT.METRIC_IDENTITY_VERIFIED";
        severity = Severity.verified;
        evidence = context.material;
        impact = Impact.none;
      }
      ∷ [])

pub record AuditResult : Type 0 where
  pub verdict : Verdict
  pub findings : List Finding
  pub manifest_path : String
  pub metric : String
  pub minimum_improvement : Float
  pub checked : Option ResultCheck
  pub overlaps : List OverlapSummary
  pub direction : Direction

-- The findings of the artifacts that a spec names.
unfoldable pub artifact_findings : World → ResearchSpec → Result (List Finding)
artifact_findings w spec = do
  configs ← config_findings w spec
  results ← result_findings w spec
  datasets ← dataset_findings w spec
  ok (configs ++ (results ++ datasets))

unfoldable pub audit_research :
    World → Paths → Option String → Option MetricIdentity → String → Result AuditResult
unfolding artifact_findings compared_results
audit_research w ps artifact_root context path = do
  spec ← load_research_spec w ps artifact_root path
  artifacts ← artifact_findings w spec
  identity ← metric_identity_finding context spec.metric
  let findings = artifacts ++ identity
  ok (record {
    verdict = determine_verdict findings;
    findings = findings;
    manifest_path = spec.manifest_path;
    metric = spec.metric;
    minimum_improvement = spec.minimum_improvement;
    checked = comparison_value (
        compared_results w spec (load_results w spec.baseline.results spec.metric)
          (load_results w spec.candidate.results spec.metric));
    overlaps =
        split_overlaps w "baseline" spec.baseline ++ split_overlaps w "candidate" spec.candidate;
    direction = spec.direction;
  })
