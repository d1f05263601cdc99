-- ===== src/Streaming/Check.antt =====
-- `check_streaming_dataset_context` of claimci/dataset_check.py: the facts of a streamed index as the
-- findings of the dataset checks.
pub mod Refines
pub mod Held
pub mod Streams
pub mod Incomplete
use claim_ci.Prelude.{
  Bool, true, not, ◌&&◌, ◌==◌, ltb, Option, none, some, List, [], ◌∷◌, ◌++◌, when, String, str_eq,
  length, if◌then◌else◌,
}
use claim_ci.Prelude.Optional.{◌>>=◌}
use claim_ci.Models.{Finding, Datum, Evidence, OverlapSummary, rate}
use claim_ci.Models.Enums.{Severity, Impact}
use claim_ci.Streaming.Report.{ScanState, ScanReason}
use claim_ci.Streaming.Store.{Experiment, Split, EntriesHash, DatasetMultisetIdentity, Alignment}
use claim_ci.Streaming.Datasets.{DatasetSplitScan}
use claim_ci.Streaming.Context.{
  DatasetScanAuditContext, DatasetOverlapFact, is_complete_fact, scan, context_overlap_fact,
  evaluation_alignment_fact,
}

abbrev pub experiment_name : Experiment → String
experiment_name Experiment.baseline = "baseline"
experiment_name Experiment.candidate = "candidate"

abbrev pub state_value : ScanState → String
state_value ScanState.complete = "complete"
state_value ScanState.incomplete_budget = "incomplete_budget"
state_value ScanState.incomplete_limit = "incomplete_limit"
state_value ScanState.failed = "failed"

abbrev pub reason_value : ScanReason → String
reason_value ScanReason.complete = "complete"
reason_value ScanReason.semantic_byte_budget = "semantic_byte_budget"
reason_value ScanReason.record_budget = "record_budget"
reason_value ScanReason.observation_budget = "observation_budget"
reason_value ScanReason.logical_record_limit = "logical_record_limit"
reason_value ScanReason.column_limit = "column_limit"
reason_value ScanReason.node_limit = "node_limit"
reason_value ScanReason.depth_limit = "depth_limit"
reason_value ScanReason.candidate_limit = "candidate_limit"
reason_value ScanReason.scratch_budget = "scratch_budget"
reason_value ScanReason.malformed = "malformed"
reason_value ScanReason.invalid_utf8 = "invalid_utf8"
reason_value ScanReason.integrity_budget = "integrity_budget"
reason_value ScanReason.size_mismatch = "size_mismatch"
reason_value ScanReason.sha_mismatch = "sha_mismatch"
reason_value ScanReason.source_changed = "source_changed"
reason_value ScanReason.selector_mismatch = "selector_mismatch"

unfoldable pub summary_of : Experiment → DatasetOverlapFact → OverlapSummary
summary_of e fact = record {
  experiment = experiment_name e;
  train_count = fact.counts.train_count;
  eval_count = fact.counts.eval_count;
  overlap_count = fact.counts.overlap_count;
  overlap_rate = rate fact.counts.overlap_count fact.counts.eval_count;
  overlapping_hashes = fact.counts.overlapping_hashes;
}

-- The entries on paths, hashes and states that the findings share.
abbrev pub artifacts_evidence : DatasetOverlapFact → Evidence
artifacts_evidence fact =
    ("train_artifact_path", Datum.text fact.train_scan.path)
    ∷ ("train_artifact_sha256", Datum.text fact.train_scan.artifact_sha256)
    ∷ ("eval_artifact_path", Datum.text fact.eval_scan.path)
    ∷ ("eval_artifact_sha256", Datum.text fact.eval_scan.artifact_sha256)
    ∷ ("train_scan_state", Datum.text (state_value fact.train_scan.completeness.state))
    ∷ ("eval_scan_state", Datum.text (state_value fact.eval_scan.completeness.state))
    ∷ ("integrity_verified", Datum.flag true)
    ∷ []

-- What is said of the rate, or of the scope of an incomplete scan.
abbrev pub scope_evidence : DatasetOverlapFact → OverlapSummary → Evidence
scope_evidence fact summary =
    if is_complete_fact fact
    then ("overlap_rate", Datum.ratio summary.overlap_rate.0 summary.overlap_rate.1) ∷ []
    else ("scope", Datum.text "inspected_exact_records_only")
      ∷ ("train_records_scanned", Datum.count fact.train_scan.completeness.records_scanned)
      ∷ ("eval_records_scanned", Datum.count fact.eval_scan.completeness.records_scanned)
      ∷ []

unfoldable pub streamed_leakage : Experiment → DatasetOverlapFact → Finding
unfolding summary_of
streamed_leakage e fact = record {
  rule_id = "DATASET.EXACT_LEAKAGE";
  severity = Severity.critical;
  evidence =
      ("experiment", Datum.text (experiment_name e))
      ∷ ("train_count", Datum.count fact.counts.train_count)
      ∷ ("eval_count", Datum.count fact.counts.eval_count)
      ∷ ("overlap_count", Datum.count fact.counts.overlap_count)
      ∷ ("hashes", Datum.texts fact.counts.overlapping_hashes)
      ∷ (
        "hash_preview_truncated",
        Datum.flag
            (ltb (length fact.counts.overlapping_hashes) fact.counts.overlapping_distinct_count),
      )
      ∷ (artifacts_evidence fact ++ scope_evidence fact (summary_of e fact));
  impact = Impact.invalidates;
}

unfoldable pub streamed_no_leakage : Experiment → DatasetOverlapFact → Finding
streamed_no_leakage e fact = record {
  rule_id = "DATASET.NO_LEAKAGE";
  severity = Severity.verified;
  evidence =
      ("experiment", Datum.text (experiment_name e))
      ∷ ("train_count", Datum.count fact.counts.train_count)
      ∷ ("eval_count", Datum.count fact.counts.eval_count)
      ∷ ("overlap_count", Datum.count 0)
      ∷ ("overlap_rate", Datum.ratio 0 1)
      ∷ artifacts_evidence fact;
  impact = Impact.none;
}

unfoldable pub scan_incomplete : Experiment → DatasetOverlapFact → Finding
scan_incomplete e fact = record {
  rule_id = "DATASET.SCAN_INCOMPLETE";
  severity = Severity.warning;
  evidence =
      ("experiment", Datum.text (experiment_name e))
      ∷ ("train_scan_state", Datum.text (state_value fact.train_scan.completeness.state))
      ∷ ("train_scan_reason", Datum.text (reason_value fact.train_scan.completeness.reason))
      ∷ ("train_records_scanned", Datum.count fact.train_scan.completeness.records_scanned)
      ∷ ("eval_scan_state", Datum.text (state_value fact.eval_scan.completeness.state))
      ∷ ("eval_scan_reason", Datum.text (reason_value fact.eval_scan.completeness.reason))
      ∷ ("eval_records_scanned", Datum.count fact.eval_scan.completeness.records_scanned)
      ∷ ("integrity_verified", Datum.flag true)
      ∷ ("train_artifact_sha256", Datum.text fact.train_scan.artifact_sha256)
      ∷ ("eval_artifact_sha256", Datum.text fact.eval_scan.artifact_sha256)
      ∷ [];
  impact = Impact.insufficient;
}

-- The body of the loop over the experiments.
unfoldable pub leakage_findings : Experiment → DatasetOverlapFact → List Finding
unfolding streamed_leakage streamed_no_leakage scan_incomplete
leakage_findings e fact =
    (if ltb 0 fact.counts.overlap_count
      then streamed_leakage e fact ∷ []
      else when (is_complete_fact fact) (streamed_no_leakage e fact ∷ []))
    ++ when (not (is_complete_fact fact)) (scan_incomplete e fact ∷ [])

-- `alignment.baseline == alignment.candidate`
abbrev pub eq_identity : DatasetMultisetIdentity → DatasetMultisetIdentity → Bool
eq_identity a b = a.record_count == b.record_count && str_eq a.canonical_sha256 b.canonical_sha256

abbrev pub aligned_evidence : Alignment → DatasetSplitScan → DatasetSplitScan → Evidence
aligned_evidence a b c =
    ("baseline_eval_count", Datum.count a.baseline.record_count)
    ∷ ("candidate_eval_count", Datum.count a.candidate.record_count)
    ∷ ("matching_count", Datum.count a.matching_count)
    ∷ ("baseline_only_count", Datum.count a.baseline_only_count)
    ∷ ("candidate_only_count", Datum.count a.candidate_only_count)
    ∷ ("baseline_only", Datum.tally a.baseline_only)
    ∷ ("candidate_only", Datum.tally a.candidate_only)
    ∷ ("baseline_eval_sha256", Datum.text b.artifact_sha256)
    ∷ ("candidate_eval_sha256", Datum.text c.artifact_sha256)
    ∷ ("scan_state", Datum.text "complete")
    ∷ ("integrity_verified", Datum.flag true)
    ∷ []

unfoldable pub alignment_finding : Alignment → DatasetSplitScan → DatasetSplitScan → Finding
alignment_finding a b c =
    if eq_identity a.baseline a.candidate
    then record {
      rule_id = "DATASET.EVALUATION_ALIGNED";
      severity = Severity.verified;
      evidence = aligned_evidence a b c;
      impact = Impact.none;
    }
    else record {
      rule_id = "DATASET.EVALUATION_MISMATCH";
      severity = Severity.critical;
      evidence = aligned_evidence a b c;
      impact = Impact.invalidates;
    }

unfoldable pub alignment_findings :
    DatasetScanAuditContext → Option Alignment → Option (List Finding)
unfolding scan alignment_finding
alignment_findings context none = some []
alignment_findings context (some a) = do
  b ← scan context Experiment.baseline Split.eval
  c ← scan context Experiment.candidate Split.eval
  some (alignment_finding a b c ∷ [])

-- `none` where a fact is refused
unfoldable pub check_streaming_dataset_context :
    EntriesHash → DatasetScanAuditContext → Option (List OverlapSummary × List Finding)
unfolding context_overlap_fact evaluation_alignment_fact leakage_findings alignment_findings
    summary_of
check_streaming_dataset_context hash context = do
  b ← context_overlap_fact context Experiment.baseline
  c ← context_overlap_fact context Experiment.candidate
  alignment ← evaluation_alignment_fact hash context
  compared ← alignment_findings context alignment
  some (
    summary_of Experiment.baseline b ∷ summary_of Experiment.candidate c ∷ [],
    leakage_findings Experiment.baseline b ++ (leakage_findings Experiment.candidate c ++ compared),
  )
