-- ===== src/Streaming/Datasets.antt =====
-- `_scan_dataset` of claimci/analysis/streaming_dataset.py: how the `try` block ends, and the report that is
-- made of it.
pub mod Closing
pub mod Recorded
use claim_ci.Prelude.{
  ℕ, ◌+◌, true, false, not, ltb, ◌==◌, min, Option, none, some, [], String, if◌then◌else◌,
}
use claim_ci.Streaming.Report.{ScanState, ScanReason, Stop, ScanCompleteness, is_failed_state}
use claim_ci.Streaming.Records.{stop}
use claim_ci.Streaming.Scan.{Source, Ending, open_scan, finish}
use claim_ci.Streaming.Store.{Experiment, Split, Spill, delete_split}
use claim_ci.Streaming.Indexing.{
  Job, Progress, Outcome, continues, stops, full, raises, flush, index_records,
}

pub record DatasetSplitScan : Type 0 where
  pub experiment : Experiment
  pub split : Split
  pub path : String
  pub artifact_sha256 : String
  pub artifact_size : ℕ
  pub source_trace_sha256 : String
  pub completeness : ScanCompleteness
  pub indexed_records : ℕ

-- `DatasetSplitScan.__post_init__`; `none` where it raises
unfoldable pub dataset_split_scan : DatasetSplitScan → Option DatasetSplitScan
dataset_split_scan s =
    if not (s.artifact_size == s.completeness.expected_bytes)
    then none
    else if ltb s.completeness.records_scanned s.indexed_records
    then none
    else if not s.completeness.integrity_verified
    then none
    else some s

abbrev pub empty_handed : Spill → Source → Progress
empty_handed store source = record {
  records = 0;
  indexed = 0;
  pending = [];
  store = store;
  scan = open_scan source;
}

abbrev pub dropped : Job → Progress → Progress
dropped job p = record p {
  pending = [];
  indexed = 0;
  store = delete_split job.experiment job.split p.store;
}

abbrev pub scratch_of : Job → Progress → ℕ
scratch_of job p = min p.store.peak_bytes job.limits.max_scratch_bytes

-- The `semantic_complete=False` reports.
abbrev pub partial_ending : Job → Stop → Progress → Ending
partial_ending job reason p = record {
  semantic_complete = false;
  state = reason.state;
  reason = reason.reason;
  records_scanned = p.records;
  scratch_bytes = scratch_of job p;
}

abbrev pub complete_ending : Progress → Ending
complete_ending p = record {
  semantic_complete = true;
  state = ScanState.complete;
  reason = ScanReason.complete;
  records_scanned = p.records;
  scratch_bytes = p.store.peak_bytes;
}

-- The progress with which a handler calls `finish`, and what it reports.
pub record Closed : Type 0 where
  pub ending : Ending
  pub progress : Progress

abbrev pub scratch_stop : Stop
scratch_stop = stop ScanState.incomplete_budget ScanReason.scratch_budget

abbrev pub closed : Job → Stop → Progress → Closed
closed job reason p = record { ending = partial_ending job reason p; progress = p }

-- `indexed += _flush(...)` of a scan that is not complete; a store that is full then replaces the
-- reason. It does not go on to `stops` or `raises`.
unfoldable pub flush_rest : Job → Stop → Progress → Closed
unfolding flush
flush_rest job reason p = elim (flush job p) [
  | full q ↦ closed job scratch_stop q
  | continues q ↦ closed job reason q
  | stops other q ↦ closed job other q
  | raises q ↦ closed job reason q
]

abbrev pub failed_stop : Stop
failed_stop = stop ScanState.failed ScanReason.malformed

-- The handlers.
unfoldable pub handle : Job → Outcome → Closed
unfolding flush_rest delete_split
handle job (continues p) = record { ending = complete_ending p; progress = p }
handle job (full p) = closed job scratch_stop (record p { pending = [] })
handle job (stops reason p) =
    if is_failed_state reason.state
    then closed job reason (dropped job p)
    else flush_rest job reason p
handle job (raises p) = closed job failed_stop (dropped job p)

abbrev pub finish_closed : Job → Source → Closed → Option (ScanCompleteness × String)
finish_closed job source c = finish job.codec job.limits source c.ending c.progress.scan

-- The report. A `finish` that raises in the `try` block is caught, and then called again.
unfoldable pub close : Job → Source → Outcome → Option (ScanCompleteness × String) × Progress
unfolding handle finish
close job source (continues p) = elim (finish_closed job source (handle job (continues p))) [
  | none ↦ (finish_closed job source (handle job (raises p)), (handle job (raises p)).progress)
  | some report ↦ (some report, p)
]
close job source outcome =
    (finish_closed job source (handle job outcome), (handle job outcome).progress)

abbrev pub split_scan_of : Job → Source → Progress → ScanCompleteness × String → DatasetSplitScan
split_scan_of job source p report = record {
  experiment = job.experiment;
  split = job.split;
  path = source.path;
  artifact_sha256 = source.sha256;
  artifact_size = source.size;
  source_trace_sha256 = report.1;
  completeness = report.0;
  indexed_records = p.indexed;
}

unfoldable pub scan_of :
    Job → Source → Option (ScanCompleteness × String) × Progress → Option DatasetSplitScan × Spill
unfolding dataset_split_scan
scan_of job source (none, p) = (none, p.store)
scan_of job source (some report, p) =
    (dataset_split_scan (split_scan_of job source p report), p.store)

-- `_scan_dataset`, and the store that it leaves; `none` where it raises
unfoldable pub scan_dataset : Job → Source → Spill → Option DatasetSplitScan × Spill
unfolding index_records close scan_of
scan_dataset job source store =
    if source.is_jsonl_dataset
    then scan_of job source
        (close job source (index_records job source (empty_handed store source)))
    else (none, store)
