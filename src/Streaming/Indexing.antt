-- ===== src/Streaming/Indexing.antt =====
-- The `try` block of `_scan_dataset` of claimci/analysis/streaming_dataset.py: the records of a file are
-- hashed and put into the store in batches.
pub mod Digests
pub mod Progressing
pub mod Looping
use claim_ci.Prelude.{
  ℕ, suc, ◌+◌, not, ltb, leb, ◌==◌, Option, none, some, List, [], ◌∷◌, ◌++◌, String, length,
  if◌then◌else◌,
}
use claim_ci.World.{World}
use claim_ci.Streaming.Report.{ScanState, ScanReason, Stop, StreamingLimits}
use claim_ci.Streaming.Lines.{Step, takes, notes, yields, halts, binary_lines}
use claim_ci.Streaming.Records.{stop, Codec, stopped, parsed, parse_dataset_value, is_blank_bytes}
use claim_ci.Streaming.Scan.{Source, ArtifactScan, read_chunk, is_over, note_semantic_bytes, finish}
use claim_ci.Streaming.Store.{Experiment, Split, Database, Spill, add_batch}

-- What a scan runs with: the libraries, the limits, and the split that it fills.
pub record Job : Type 0 where
  pub world : World
  pub codec : Codec
  pub limits : StreamingLimits
  pub database : Database
  pub experiment : Experiment
  pub split : Split

-- The variables of `_scan_dataset`.
pub record Progress : Type 0 where
  pub records : ℕ
  pub indexed : ℕ
  pub pending : List String
  pub store : Spill
  pub scan : ArtifactScan

-- How a part of the `try` block ends: it goes on, or it raises `_ScanStop`, `_ScratchFull`, or
-- another of the exceptions that are caught.
pub data Outcome : Type 0 where
  continues : Progress → Outcome
  stops : Stop → Progress → Outcome
  full : Progress → Outcome
  raises : Progress → Outcome

infixl 5 ◌then◌
abbrev pub ◌then◌ : Outcome → (Progress → Outcome) → Outcome
continues p then next = next p
stops reason p then next = stops reason p
full p then next = full p
raises p then next = raises p

abbrev pub batch_records : ℕ
batch_records = 128

unfoldable pub flushed : Progress → Option ℕ × Spill → Outcome
flushed p (none, store) = full (record p { store = store })
flushed p (some added, store) =
    continues (record p { indexed = p.indexed + added; pending = []; store = store })

-- `indexed += _flush(store, experiment, split, pending)`
unfoldable pub flush : Job → Progress → Outcome
unfolding add_batch flushed
flush job p = flushed p (add_batch job.database job.experiment job.split p.pending p.store)

abbrev pub with_digest : String → Progress → Progress
with_digest digest p = record p { pending = p.pending ++ digest ∷ []; records = suc p.records }

-- The digest of a record is pending; a full batch is flushed.
unfoldable pub add_digest : Job → String → Progress → Outcome
unfolding flush
add_digest job digest p =
    if leb batch_records (length (p.pending ++ digest ∷ []))
    then flush job (with_digest digest p)
    else continues (with_digest digest p)

-- A record that is not blank, once it is counted.
unfoldable pub index_record : Job → List ℕ → Progress → Outcome
unfolding add_digest parse_dataset_value
index_record job raw p = elim (parse_dataset_value job.world job.codec job.limits raw) [
  | stopped reason ↦ stops reason p
  | parsed v ↦ elim (job.world.hash_sample v) [
    | none ↦ raises p
    | some digest ↦ add_digest job digest p
  ]
]

abbrev pub noted : ℕ → ℕ → Progress → Progress
noted count buffered p = record p { scan = note_semantic_bytes count buffered p.scan }

-- The body of the loop over the lines.
unfoldable pub index_line : Job → List ℕ → ℕ → Progress → Outcome
unfolding index_record
index_line job raw physical_bytes p =
    if ltb job.limits.max_semantic_bytes (p.scan.semantic_bytes + physical_bytes)
    then stops (stop ScanState.incomplete_budget ScanReason.semantic_byte_budget) p
    else if is_blank_bytes raw
    then continues (noted physical_bytes (length raw) p)
    else if leb job.limits.max_semantic_records p.records
    then stops (stop ScanState.incomplete_budget ScanReason.record_budget) p
    else index_record job raw (noted physical_bytes (length raw) p)

abbrev pub taking : List ℕ → List (List ℕ) → Progress → Progress
taking block unread p = record p { scan = read_chunk block unread p.scan }

-- The loop over what `_binary_lines` does.
unfoldable pub index_lines : Job → List Step → Progress → Outcome
unfolding index_line
index_lines job [] p = continues p
index_lines job (takes block unread ∷ steps) p =
    let later = index_lines job steps (taking block unread p) in
    if is_over job.limits block (taking block unread p).scan
    then raises (taking block unread p)
    else later
index_lines job (notes buffered ∷ steps) p = index_lines job steps (noted 0 buffered p)
index_lines job (yields raw physical_bytes ∷ steps) p =
    index_line job raw physical_bytes p then λ q. index_lines job steps q
index_lines job (halts ∷ steps) p =
    stops (stop ScanState.incomplete_limit ScanReason.logical_record_limit) p

abbrev pub require_records : Progress → Outcome
require_records p =
    if p.records == 0 then stops (stop ScanState.failed ScanReason.malformed) p else continues p

-- The `try` block up to `finish`.
unfoldable pub index_records : Job → Source → Progress → Outcome
unfolding index_lines flush
index_records job source p =
    if p.store.exhausted
    then stops (stop ScanState.incomplete_budget ScanReason.scratch_budget) p
    else index_lines job (binary_lines job.limits.max_logical_record_bytes source.blocks) p
      then flush job
      then require_records
