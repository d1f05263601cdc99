-- ===== src/Streaming/Context.antt =====
-- `DatasetScanAuditContext` and `stream_dataset_audit_context` of claimci/analysis/streaming_dataset.py:
-- the four splits are scanned one after the other into one store, which the facts are read from.
use claim_ci.Prelude.{
  repeats, ℕ, Bool, true, false, ◌&&◌, Option, none, some, List, [], ◌∷◌, keep, all, map, String,
  str_eq, if◌then◌else◌,
}
use claim_ci.Prelude.Optional.{◌>>=◌}
use claim_ci.World.{World}
use claim_ci.Streaming.Report.{StreamingLimits, is_complete}
use claim_ci.Streaming.Records.{Codec}
use claim_ci.Streaming.Scan.{Source}
use claim_ci.Streaming.Store.{
  Experiment, Split, eq_experiment, eq_split, Table, empty_table, Database, Spill, Overlap,
  overlap_fact, EntriesHash, DatasetMultisetIdentity, multiset_identity, Alignment, alignment_fact,
}
use claim_ci.Streaming.Indexing.{Job}
use claim_ci.Streaming.Datasets.{DatasetSplitScan, scan_dataset}

abbrev pub Paths : Type 0
Paths = Experiment → Split → String

pub record DatasetScanAuditContext : Type 0 where
  pub scans : List DatasetSplitScan
  pub table : Table
  pub active : Bool
  pub preview_limit : ℕ
  pub manifest_paths : Paths

abbrev pub is_for : Experiment → Split → DatasetSplitScan → Bool
is_for e s scan = eq_experiment e scan.experiment && eq_split s scan.split

-- `len(matches) != 1` raises.
abbrev pub only : List DatasetSplitScan → Option DatasetSplitScan
only [] = none
only (scan ∷ []) = some scan
only (scan ∷ other ∷ scans) = none

-- `scan`
unfoldable pub scan : DatasetScanAuditContext → Experiment → Split → Option DatasetSplitScan
scan context e s = if context.active then only (keep (is_for e s) context.scans) else none

pub record DatasetOverlapFact : Type 0 where
  pub train_scan : DatasetSplitScan
  pub eval_scan : DatasetSplitScan
  pub counts : Overlap

-- The property `complete`.
abbrev pub is_complete_fact : DatasetOverlapFact → Bool
is_complete_fact fact =
    is_complete fact.train_scan.completeness && is_complete fact.eval_scan.completeness

-- `overlap_fact`
unfoldable pub context_overlap_fact :
    DatasetScanAuditContext → Experiment → Option DatasetOverlapFact
unfolding scan overlap_fact
context_overlap_fact context e = do
  train_scan ← scan context e Split.train
  eval_scan ← scan context e Split.eval
  some (record {
    train_scan = train_scan;
    eval_scan = eval_scan;
    counts = overlap_fact context.table e context.preview_limit;
  })

abbrev identified :
    EntriesHash
    → DatasetScanAuditContext
    → Experiment
    → DatasetSplitScan
    → Option (Option DatasetMultisetIdentity)
identified hash context e found =
    if is_complete found.completeness
    then (multiset_identity hash (context.table e Split.eval) >>= λ identity. some (some identity))
    else some none

-- `evaluation_identity`; the inner `none` is `None`
unfoldable pub evaluation_identity :
    EntriesHash → DatasetScanAuditContext → Experiment → Option (Option DatasetMultisetIdentity)
unfolding scan multiset_identity
evaluation_identity hash context e = scan context e Split.eval >>= identified hash context e

abbrev pub aligned :
    DatasetScanAuditContext
    → Option DatasetMultisetIdentity
    → Option DatasetMultisetIdentity
    → Option Alignment
aligned context (some b) (some c) = some (alignment_fact context.table b c context.preview_limit)
aligned context _ _ = none

-- `evaluation_alignment_fact`
unfoldable pub evaluation_alignment_fact :
    EntriesHash → DatasetScanAuditContext → Option (Option Alignment)
unfolding evaluation_identity alignment_fact
evaluation_alignment_fact hash context = do
  baseline_identity ← evaluation_identity hash context Experiment.baseline
  candidate_identity ← evaluation_identity hash context Experiment.candidate
  some (aligned context baseline_identity candidate_identity)

abbrev pub Sources : Type 0
Sources = Experiment → Split → Source

-- The order of `keyed`.
abbrev pub roles : List (Experiment × Split)
roles =
    (Experiment.baseline, Split.train)
    ∷ (Experiment.baseline, Split.eval)
    ∷ (Experiment.candidate, Split.train)
    ∷ (Experiment.candidate, Split.eval)
    ∷ []

-- One repository and one head.
unfoldable pub share_head : Sources → Bool
share_head sources =
    let first = sources Experiment.baseline Split.train in
    all
      (λ (role : Experiment × Split).
        str_eq (sources role.0 role.1).repository first.repository
        && str_eq (sources role.0 role.1).head_sha first.head_sha)
      roles

abbrev pub paths_of : Paths → List String
paths_of paths = map (λ (role : Experiment × Split). paths role.0 role.1) roles

-- The manifest's paths, or the sources' own; aliases must be unique.
unfoldable pub fixed_paths : Sources → Option Paths → Option Paths
unfolding repeats
fixed_paths sources none = some λ e s. (sources e s).path
fixed_paths sources (some paths) = if repeats (paths_of paths) then none else some paths

-- The store of `_DatasetSpill.__init__`; its own failures are those of the file system.
abbrev pub new_store : ℕ → Spill
new_store maximum_bytes = record {
  table = empty_table;
  maximum_bytes = maximum_bytes;
  peak_bytes = 0;
  exhausted = false;
  batches = 0;
}

-- The libraries, the limits and the database of one run.
pub record Setting : Type 0 where
  pub world : World
  pub codec : Codec
  pub limits : StreamingLimits
  pub database : Database

abbrev pub job_of : Setting → Experiment → Split → Job
job_of setting e s = record {
  world = setting.world;
  codec = setting.codec;
  limits = setting.limits;
  database = setting.database;
  experiment = e;
  split = s;
}

-- The scans in order, each into the store that the one before it leaves.
unfoldable pub scan_all :
    Setting → Sources → List (Experiment × Split) → Spill → Option (List DatasetSplitScan × Table)
unfolding scan_dataset
scan_all setting sources [] store = some ([], store.table)
scan_all setting sources ((e, s) ∷ keyed) store = do
  first ← (scan_dataset (job_of setting e s) (sources e s) store).0
  rest ← scan_all setting sources keyed (scan_dataset (job_of setting e s) (sources e s) store).1
  some (first ∷ rest.0, rest.1)

unfoldable pub context_of : Setting → Sources → Paths → Option DatasetScanAuditContext
unfolding scan_all
context_of setting sources paths = do
  scanned ← scan_all setting sources roles (new_store setting.limits.max_scratch_bytes)
  some (record {
    scans = scanned.0;
    table = scanned.1;
    active = true;
    preview_limit = setting.limits.max_hash_previews;
    manifest_paths = paths;
  })

-- `stream_dataset_audit_context`, up to its `yield`; `none` where it raises
unfoldable pub stream_dataset_audit_context :
    Setting → Sources → Option Paths → Option DatasetScanAuditContext
unfolding context_of share_head fixed_paths
stream_dataset_audit_context setting sources manifest_paths =
    if share_head sources
    then fixed_paths sources manifest_paths >>= context_of setting sources
    else none

-- `_deactivate`, after which no fact is given
abbrev pub deactivate : DatasetScanAuditContext → DatasetScanAuditContext
deactivate context = record context { active = false }
