-- ===== src/Examples/Audits.antt =====
-- Audits of a small file system.
use claim_ci.Prelude.{◌≡◌, ◌↔◌, refl, false, subst, Option, none, some, List, [], ◌∷◌, ◌++◌, String}
use claim_ci.Models.{Result, ok, err, Finding}
use claim_ci.Models.Enums.{Severity, Impact, Verdict, Direction}
use claim_ci.Audit.Research.{AuditResult, audit_research, determine_verdict}
use claim_ci.Audit.Spec.{ResearchSpec, load_research_spec}
use claim_ci.Audit.Supported.{Supported, audit_research-Supported}
use claim_ci.Audit.Returning.{Answers, audit_research-returns}
use claim_ci.Audit.Confined.{Contained, load_research_spec-Contained}
use claim_ci.Audit.Verdict.{graver, determine_verdict-append}
use claim_ci.Prelude.Optional.{some-injective}
use claim_ci.World.{load_unique_yaml, load_config, is_escaped}
use claim_ci.Prelude.Int.{pos}
use claim_ci.Value.{finite, get, eq_lookup}
use claim_ci.Models.{coerce_direction}
use claim_ci.Prelude.{strip}
use claim_ci.Parsing.{load_json}
use claim_ci.Parsing.Graph.{validate_yaml_graph}
use claim_ci.Config.{
  compute_proxies, multiply_exact, at_least_ratio, choose_basis, read, positive_number,
  present_scalar, missing_or_invalid_fields, evaluation_mapping_complete,
}
use claim_ci.Config.Rules.{
  compute, compute_mismatch, evaluation_differs, missing_fields, compute_rule, evaluation_rule,
  same_at, dataset_rule, parameter_differences, parameter_rule, learning_rate_rule, model_rule,
  fired_rules, check_configs,
}
use claim_ci.Counter.{counter, total, intersection, eq_counter}
use claim_ci.Dataset.{hash_line, load_dataset, check_dataset_leakage, check_evaluation_alignment}
use claim_ci.Decimal.{le_decimal, eq_decimal, sub, div, abs, mul}
use claim_ci.Results.{
  finite_number, decimal_number, finite_float, summarize_runs, load_results, read_run, read_runs,
  claimed_of, missing_indices, present_seeds, duplicate_seeds, seed_findings,
}
use claim_ci.Results.Compare.{metric_summary_comparison}
use claim_ci.Results.Check.{summary_agrees, summary_mismatch_finding, is_imbalanced, check_results}
use claim_ci.Audit.Paths.{ExperimentPaths, artifact_path, experiment_paths}
use claim_ci.Audit.Research.{
  pair_findings, failed, artifact_findings, config_findings, result_findings, split_findings,
  dataset_findings, metric_identity_finding,
}
use claim_ci.Examples.Inputs.{disk, leaky, flat}

abbrev verdict_in : Result AuditResult → Option Verdict
verdict_in (ok r) = some r.verdict
verdict_in (err e) = none

supported_pair :
    verdict_in (audit_research disk flat (some "root") none "manifest") ≡ some Verdict.supported
unfolding audit_research determine_verdict load_research_spec load_unique_yaml load_config get
    eq_lookup coerce_direction strip load_json validate_yaml_graph compute_proxies multiply_exact
    at_least_ratio choose_basis read positive_number present_scalar missing_or_invalid_fields
    evaluation_mapping_complete compute compute_mismatch evaluation_differs missing_fields
    compute_rule evaluation_rule same_at dataset_rule parameter_differences parameter_rule
    learning_rate_rule model_rule fired_rules check_configs counter total intersection eq_counter
    hash_line load_dataset check_dataset_leakage check_evaluation_alignment le_decimal eq_decimal
    sub div abs mul finite_number decimal_number finite_float summarize_runs load_results read_run
    read_runs claimed_of missing_indices present_seeds duplicate_seeds seed_findings
    metric_summary_comparison summary_agrees summary_mismatch_finding is_imbalanced check_results
    artifact_path experiment_paths config_findings result_findings split_findings dataset_findings
    metric_identity_finding pair_findings failed artifact_findings
supported_pair = refl

leaked_pair :
    verdict_in (audit_research leaky flat (some "root") none "manifest")
    ≡ some Verdict.not_supported
unfolding audit_research determine_verdict load_research_spec load_unique_yaml load_config get
    eq_lookup coerce_direction strip load_json validate_yaml_graph compute_proxies multiply_exact
    at_least_ratio choose_basis read positive_number present_scalar missing_or_invalid_fields
    evaluation_mapping_complete compute compute_mismatch evaluation_differs missing_fields
    compute_rule evaluation_rule same_at dataset_rule parameter_differences parameter_rule
    learning_rate_rule model_rule fired_rules check_configs counter total intersection eq_counter
    hash_line load_dataset check_dataset_leakage check_evaluation_alignment le_decimal eq_decimal
    sub div abs mul finite_number decimal_number finite_float summarize_runs load_results read_run
    read_runs claimed_of missing_indices present_seeds duplicate_seeds seed_findings
    metric_summary_comparison summary_agrees summary_mismatch_finding is_imbalanced check_results
    artifact_path experiment_paths config_findings result_findings split_findings dataset_findings
    metric_identity_finding pair_findings failed artifact_findings
leaked_pair = refl

abbrev paths : String → ExperimentPaths
paths results = record {
  config = "config";
  results = results;
  train_dataset = "train";
  eval_dataset = "eval";
}

abbrev spec : ResearchSpec
spec = record {
  manifest_path = "manifest";
  metric = "score";
  minimum_improvement = finite (pos 2) (pos 0);
  baseline = paths "before";
  candidate = paths "after";
  direction = Direction.higher;
}

spec_of_disk : load_research_spec disk flat (some "root") "manifest" ≡ ok spec
unfolding load_research_spec load_unique_yaml validate_yaml_graph get coerce_direction strip
    experiment_paths artifact_path
spec_of_disk = refl

-- Every artifact of the small file system is read and resolved.
answers : (results : String) → Answers disk (paths results)
answers results = record {
  yaml = λ text e. subst (λ t. is_escaped (disk.read_yaml t) ≡ false) (some-injective e) refl;
  config_exists = refl;
  results_exists = refl;
  train_exists = refl;
  eval_exists = refl;
  train_resolves = refl;
  eval_resolves = refl;
}

audit_of_disk : (r : AuditResult) × (audit_research disk flat (some "root") none "manifest" ≡ ok r)
audit_of_disk =
    let (r, r_eq, _) =
      audit_research-returns disk flat (some "root") "manifest" spec spec_of_disk (answers "before")
        (answers "after") in
    (r, r_eq)

audit_research-Supported_example :
    (found : ResearchSpec) × (load_research_spec disk flat (some "root") "manifest" ≡ ok found)
    × ((audit_of_disk.0.verdict ≡ Verdict.supported) ↔ Supported disk found)
audit_research-Supported_example =
    audit_research-Supported disk flat (some "root") none "manifest" audit_of_disk.0 audit_of_disk.1

audit_research-returns_example :
    (r : AuditResult) × (audit_research disk flat (some "root") none "manifest" ≡ ok r)
    × ((r.verdict ≡ Verdict.supported) ↔ Supported disk spec)
audit_research-returns_example =
    audit_research-returns disk flat (some "root") "manifest" spec spec_of_disk (answers "before")
      (answers "after")

load_research_spec-Contained_example : Contained disk flat "root" spec
load_research_spec-Contained_example =
    load_research_spec-Contained disk flat "root" "manifest" spec spec_of_disk

abbrev finding : String → Impact → Finding
finding rule impact = record {
  rule_id = rule;
  severity = Severity.warning;
  evidence = [];
  impact = impact;
}

abbrev weak : List Finding
weak = finding "SEED.SINGLE_RUN" Impact.insufficient ∷ []

abbrev broken : List Finding
broken = finding "CONFIG.COMPUTE_MISMATCH" Impact.invalidates ∷ []

determine_verdict-append_example :
    determine_verdict (weak ++ broken) ≡ graver (determine_verdict weak) (determine_verdict broken)
determine_verdict-append_example = determine_verdict-append weak broken
