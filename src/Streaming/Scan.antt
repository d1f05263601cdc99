-- ===== src/Streaming/Scan.antt =====
-- `ArtifactScan` of claimci/analysis/artifact_source.py: the bytes of a file are read, counted and hashed.
use claim_ci.Prelude.{
  ℕ, ◌+◌, Bool, true, not, ◌&&◌, ltb, ◌==◌, max, Option, none, some, List, [], ◌∷◌, ◌++◌, String,
  str_eq, length, if◌then◌else◌, is_empty,
}
use claim_ci.Prelude.Optional.{◌>>=◌}
use claim_ci.Streaming.Report.{
  ScanState, ScanReason, StreamingLimits, ScanCompleteness, scan_completeness, is_complete_state,
}
use claim_ci.Streaming.Records.{Codec}

-- A file as it was issued to the scan: what successive reads of it return, with its recorded size
-- and hash. `stable` is `_verify_stable_source`, which asks the file system.
pub record Source : Type 0 where
  pub repository : String
  pub head_sha : String
  pub path : String
  pub blocks : List (List ℕ)
  pub size : ℕ
  pub sha256 : String
  pub stable : Bool
  pub is_jsonl_dataset : Bool

-- The state of an open scan: the reads to come, the bytes read, and the counts.
pub record ArtifactScan : Type 0 where
  pub unread : List (List ℕ)
  pub taken : List ℕ
  pub integrity_bytes : ℕ
  pub semantic_bytes : ℕ
  pub peak_buffer_bytes : ℕ

abbrev pub open_scan : Source → ArtifactScan
open_scan source = record {
  unread = source.blocks;
  taken = [];
  integrity_bytes = 0;
  semantic_bytes = 0;
  peak_buffer_bytes = 0;
}

-- `read_chunk`, given what the read returns
abbrev pub read_chunk : List ℕ → List (List ℕ) → ArtifactScan → ArtifactScan
read_chunk block unread scan = record scan {
  unread = unread;
  taken = scan.taken ++ block;
  integrity_bytes = scan.integrity_bytes + length block;
}

-- `read_chunk` raises `StreamingLimitError`.
abbrev pub is_over : StreamingLimits → List ℕ → ArtifactScan → Bool
is_over l block scan = not (is_empty block) && ltb l.max_integrity_bytes scan.integrity_bytes

abbrev pub note_semantic_bytes : ℕ → ℕ → ArtifactScan → ArtifactScan
note_semantic_bytes count buffered scan = record scan {
  semantic_bytes = scan.semantic_bytes + count;
  peak_buffer_bytes = max scan.peak_buffer_bytes buffered;
}

-- `_drain`; `none` where a read raises
unfoldable pub drain : StreamingLimits → List (List ℕ) → ArtifactScan → Option ArtifactScan
drain l [] scan = some (record scan { unread = [] })
drain l ([] ∷ blocks) scan = some (record scan { unread = [] })
drain l ((b ∷ block) ∷ blocks) scan =
    let longer = read_chunk (b ∷ block) blocks scan in
    let rest = drain l blocks longer in if is_over l (b ∷ block) longer then none else rest

-- How the semantic scan ended, as `finish` is told.
pub record Ending : Type 0 where
  pub semantic_complete : Bool
  pub state : ScanState
  pub reason : ScanReason
  pub records_scanned : ℕ
  pub scratch_bytes : ℕ

abbrev pub report_of : Source → Ending → ArtifactScan → ScanCompleteness
report_of source ending scan = record {
  state = if ending.semantic_complete then ScanState.complete else ending.state;
  reason = if ending.semantic_complete then ScanReason.complete else ending.reason;
  records_scanned = ending.records_scanned;
  semantic_bytes = scan.semantic_bytes;
  integrity_bytes = scan.integrity_bytes;
  expected_bytes = source.size;
  integrity_verified = true;
  peak_buffer_bytes = scan.peak_buffer_bytes;
  scratch_bytes = ending.scratch_bytes;
}

-- `finish` after `_drain`
unfoldable pub finish_drained : Codec → Source → Ending → ArtifactScan → Option ScanCompleteness
unfolding scan_completeness
finish_drained c source ending scan =
    if not source.stable
    then none
    else if not (scan.integrity_bytes == source.size)
    then none
    else if not (str_eq (c.sha256 scan.taken) source.sha256)
    then none
    else if not ending.semantic_complete && is_complete_state ending.state
    then none
    else scan_completeness (report_of source ending scan)

-- `finish`: the report, and the hash of the trace, which is there once the scan is finished;
-- `none` where it raises
unfoldable pub finish :
    Codec → StreamingLimits → Source → Ending → ArtifactScan → Option (ScanCompleteness × String)
unfolding drain finish_drained
finish c l source ending scan = do
  drained ← drain l scan.unread scan
  report ← finish_drained c source ending drained
  some (report, c.trace_sha256 drained.taken)
