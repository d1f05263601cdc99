-- ===== src/Examples/Streams.antt =====
-- Scans of small files, and the checks of what they index.
use claim_ci.Prelude.{
  ◌≤◌, ◌↔◌, ℕ, ◌≡◌, ◌≢◌, refl, true, ◌==◌, Option, none, some, List, [], ◌∷◌, ◌++◌, length,
  if◌then◌else◌,
}
use claim_ci.Models.{Finding, OverlapSummary, any_insufficient}
use claim_ci.Models.Enums.{Verdict}
use claim_ci.Audit.Research.{determine_verdict}
use claim_ci.Streaming.Report.{ScanState, ScanReason, StreamingLimits}
use claim_ci.Streaming.Lines.{binary_lines}
use claim_ci.Streaming.Framing.{given, framed, bytes_of, binary_lines-framed}
use claim_ci.Prelude.Int.{pos}
use claim_ci.Value.{Value, str, int, list, mapping, nil, item, end, field}
use claim_ci.Streaming.Records.{Codec, validate_record_graph, root_depth}
use claim_ci.Streaming.Records.Bounded.{nodes, fine, validate_record_graph_iff}
use claim_ci.Streaming.Scan.{Source}
use claim_ci.Streaming.Store.{Experiment, Split, empty_table, Database, Spill, EntriesHash}
use claim_ci.Streaming.Indexing.{Job}
use claim_ci.Streaming.Datasets.{DatasetSplitScan, scan_dataset}
use claim_ci.Streaming.Datasets.Recorded.{Recorded, scan_dataset-Recorded}
use claim_ci.Streaming.Context.{
  DatasetScanAuditContext, Setting, Sources, stream_dataset_audit_context, job_of, new_store, scan,
}
use claim_ci.Streaming.Check.{check_streaming_dataset_context}
use claim_ci.Streaming.Check.Streams.{SameChecks, stream_dataset_audit_context-SameChecks}
use claim_ci.Streaming.Check.Incomplete.{check_streaming_dataset_context-incomplete}
use claim_ci.Counter.{Counter}
use claim_ci.Streaming.Check.Refines.{Separates}
use claim_ci.Examples.Inputs.{disk}

-- Two lines, cut in the middle of a line end.
abbrev cut_file : List (List ℕ)
cut_file = (65 ∷ 13 ∷ []) ∷ (10 ∷ 66 ∷ []) ∷ []

binary_lines-framed_example : given (binary_lines 3 cut_file) ≡ framed 3 [] (bytes_of cut_file)
binary_lines-framed_example = binary_lines-framed 3 cut_file

abbrev small_limits : StreamingLimits
small_limits = record {
  max_integrity_bytes = 100;
  max_semantic_bytes = 100;
  max_semantic_records = 10;
  max_logical_record_bytes = 8;
  max_columns = 4;
  max_depth = 4;
  max_nodes_per_record = 10;
  max_metric_candidates = 1;
  max_observations = 10;
  max_scratch_bytes = 50;
  max_hash_previews = 4;
}

-- Lines of one byte are told apart by it.
abbrev letters : Codec
letters = record {
  decode_utf8 = λ bytes. elim bytes [ [] ↦ none | b ∷ rest ↦ some (if b == 65 then "a" else "b") ];
  sha256 = λ bytes. if length bytes == 4 then "four" else "other";
  trace_sha256 = λ bytes. "trace";
}

abbrev steady : Database
steady = record { accepts = λ n. true; size = λ n. 0 }

abbrev small : Setting
small = record { world = disk; codec = letters; limits = small_limits; database = steady }

abbrev cut_source : Source
cut_source = record {
  repository = "repository";
  head_sha = "head";
  path = "data.jsonl";
  blocks = cut_file;
  size = 4;
  sha256 = "four";
  stable = true;
  is_jsonl_dataset = true;
}

abbrev cut_scan : Experiment → Split → DatasetSplitScan
cut_scan e s = record {
  experiment = e;
  split = s;
  path = "data.jsonl";
  artifact_sha256 = "four";
  artifact_size = 4;
  source_trace_sha256 = "trace";
  completeness = record {
    state = ScanState.complete;
    reason = ScanReason.complete;
    records_scanned = 2;
    semantic_bytes = 4;
    integrity_bytes = 4;
    expected_bytes = 4;
    integrity_verified = true;
    peak_buffer_bytes = 1;
    scratch_bytes = 0;
  };
  indexed_records = 2;
}

abbrev eval_job : Job
eval_job = job_of small Experiment.baseline Split.eval

scans_both_records :
    (scan_dataset eval_job cut_source (new_store 50)).0
    ≡ some (cut_scan Experiment.baseline Split.eval)
unfolding scan_dataset binary_lines
scans_both_records = refl

scan_dataset-Recorded_example :
    Recorded eval_job cut_source empty_table
      (scan_dataset eval_job cut_source (new_store 50)).1.table
      (cut_scan Experiment.baseline Split.eval)
scan_dataset-Recorded_example =
    scan_dataset-Recorded eval_job cut_source (new_store 50)
      (cut_scan Experiment.baseline Split.eval) refl scans_both_records

abbrev same_file : Sources
same_file e s = cut_source

abbrev after_scan : Experiment → Split → Spill → Spill
after_scan e s store = (scan_dataset (job_of small e s) cut_source store).1

abbrev last_store : Spill
last_store = after_scan Experiment.candidate Split.eval (
    after_scan Experiment.candidate Split.train (
      after_scan Experiment.baseline Split.eval
        (after_scan Experiment.baseline Split.train (new_store 50))))

abbrev built : DatasetScanAuditContext
built = record {
  scans =
      cut_scan Experiment.baseline Split.train
      ∷ cut_scan Experiment.baseline Split.eval
      ∷ cut_scan Experiment.candidate Split.train
      ∷ cut_scan Experiment.candidate Split.eval
      ∷ [];
  table = last_store.table;
  active = true;
  preview_limit = 4;
  manifest_paths = λ e s. "data.jsonl";
}

builds : stream_dataset_audit_context small same_file none ≡ some built
unfolding stream_dataset_audit_context scan_dataset binary_lines
builds = refl

abbrev first_digest : EntriesHash
first_digest entries = elim entries [ [] ↦ "" | entry ∷ rest ↦ entry.0 ]

abbrev built_eval : Experiment → Counter
built_eval e = built.table e Split.eval

separates :
    Separates first_digest (built_eval Experiment.baseline) (built_eval Experiment.candidate)
unfolding scan_dataset binary_lines
separates h = refl

stream_dataset_audit_context-SameChecks_example : SameChecks first_digest small same_file built
stream_dataset_audit_context-SameChecks_example =
    stream_dataset_audit_context-SameChecks first_digest small same_file none built builds refl
      separates

abbrev cut_short : DatasetSplitScan
cut_short = record {
  experiment = Experiment.baseline;
  split = Split.eval;
  path = "data.jsonl";
  artifact_sha256 = "four";
  artifact_size = 4;
  source_trace_sha256 = "trace";
  completeness = record {
    state = ScanState.incomplete_budget;
    reason = ScanReason.record_budget;
    records_scanned = 1;
    semantic_bytes = 3;
    integrity_bytes = 4;
    expected_bytes = 4;
    integrity_verified = true;
    peak_buffer_bytes = 1;
    scratch_bytes = 0;
  };
  indexed_records = 1;
}

abbrev partial : DatasetScanAuditContext
partial = record built {
  scans =
      cut_scan Experiment.baseline Split.train
      ∷ cut_short
      ∷ cut_scan Experiment.candidate Split.train
      ∷ cut_scan Experiment.candidate Split.eval
      ∷ [];
  table = λ e s. ("a", 1) ∷ [];
}

abbrev returned : Option (List OverlapSummary × List Finding) → List OverlapSummary × List Finding
returned (some found) = found
returned none = ([], [])

abbrev partial_found : List OverlapSummary × List Finding
partial_found = returned (check_streaming_dataset_context first_digest partial)

partial_returns : check_streaming_dataset_context first_digest partial ≡ some partial_found
unfolding check_streaming_dataset_context
partial_returns = refl

partial_eval : scan partial Experiment.baseline Split.eval ≡ some cut_short
unfolding scan
partial_eval = refl

check_streaming_dataset_context-incomplete_example :
    (any_insufficient partial_found.1 ≡ true)
    × (determine_verdict ([] ++ partial_found.1) ≢ Verdict.supported)
check_streaming_dataset_context-incomplete_example =
    check_streaming_dataset_context-incomplete first_digest partial partial_found []
      Experiment.baseline Split.eval cut_short partial_returns partial_eval refl

-- A list of a mapping with one key.
abbrev nested : Value
nested = list (item (mapping (field (str "a") (int (pos 1)) end)) nil)

validate_record_graph_iff_example : (validate_record_graph small_limits nested ≡ none) ↔ (
    (nodes nested ≤ small_limits.max_nodes_per_record)
    × (fine small_limits (root_depth nested) nested ≡ true))
validate_record_graph_iff_example = validate_record_graph_iff small_limits nested

accepts_nested : validate_record_graph small_limits nested ≡ none
unfolding validate_record_graph
accepts_nested = refl
