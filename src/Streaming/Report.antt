-- ===== src/Streaming/Report.antt =====
-- claimci/analysis/artifact_source.py: how complete a scan was, and the limits of a scan.
use claim_ci.Prelude.{
  ℕ, Bool, true, false, not, ◌&&◌, ◌||◌, leb, ltb, ◌==◌, Option, none, some, all, [], ◌∷◌,
  if◌then◌else◌,
}

pub data ScanState : Type 0 where
  complete : ScanState
  incomplete_budget : ScanState
  incomplete_limit : ScanState
  failed : ScanState

pub data ScanReason : Type 0 where
  complete : ScanReason
  semantic_byte_budget : ScanReason
  record_budget : ScanReason
  observation_budget : ScanReason
  logical_record_limit : ScanReason
  column_limit : ScanReason
  node_limit : ScanReason
  depth_limit : ScanReason
  candidate_limit : ScanReason
  scratch_budget : ScanReason
  malformed : ScanReason
  invalid_utf8 : ScanReason
  integrity_budget : ScanReason
  size_mismatch : ScanReason
  sha_mismatch : ScanReason
  source_changed : ScanReason
  selector_mismatch : ScanReason

abbrev pub is_complete_state : ScanState → Bool
is_complete_state ScanState.complete = true
is_complete_state _ = false

abbrev pub is_failed_state : ScanState → Bool
is_failed_state ScanState.failed = true
is_failed_state _ = false

abbrev pub is_complete_reason : ScanReason → Bool
is_complete_reason ScanReason.complete = true
is_complete_reason _ = false

-- `_ScanStop`
pub record Stop : Type 0 where
  pub state : ScanState
  pub reason : ScanReason

pub record StreamingLimits : Type 0 where
  pub max_integrity_bytes : ℕ
  pub max_semantic_bytes : ℕ
  pub max_semantic_records : ℕ
  pub max_logical_record_bytes : ℕ
  pub max_columns : ℕ
  pub max_depth : ℕ
  pub max_nodes_per_record : ℕ
  pub max_metric_candidates : ℕ
  pub max_observations : ℕ
  pub max_scratch_bytes : ℕ
  pub max_hash_previews : ℕ

-- `not 1 <= value <= maximum` raises.
abbrev pub within : ℕ → ℕ → Bool
within value maximum = leb 1 value && leb value maximum

-- `__post_init__` of the limits; _MAX_STREAM_BYTES is 16 gibibytes
unfoldable pub limits_accepted : StreamingLimits → Bool
limits_accepted l =
    all (λ b. b)
      (within l.max_integrity_bytes 17179869184
        ∷ within l.max_semantic_bytes 17179869184
        ∷ within l.max_semantic_records 10000000
        ∷ within l.max_logical_record_bytes 16777216
        ∷ within l.max_columns 256
        ∷ within l.max_depth 64
        ∷ within l.max_nodes_per_record 1000000
        ∷ within l.max_metric_candidates 64
        ∷ within l.max_observations 1000000
        ∷ within l.max_scratch_bytes 17179869184
        ∷ within l.max_hash_previews 1024
        ∷ [])

pub record ScanCompleteness : Type 0 where
  pub state : ScanState
  pub reason : ScanReason
  pub records_scanned : ℕ
  pub semantic_bytes : ℕ
  pub integrity_bytes : ℕ
  pub expected_bytes : ℕ
  pub integrity_verified : Bool
  pub peak_buffer_bytes : ℕ
  pub scratch_bytes : ℕ

-- The property `complete`.
abbrev pub is_complete : ScanCompleteness → Bool
is_complete c = is_complete_state c.state

-- `ScanCompleteness.__post_init__`; `none` where it raises
unfoldable pub scan_completeness : ScanCompleteness → Option ScanCompleteness
scan_completeness c =
    if c.integrity_verified && not (c.integrity_bytes == c.expected_bytes)
    then none
    else if ltb c.integrity_bytes c.semantic_bytes
    then none
    else if is_complete c
    then (if not c.integrity_verified || not (is_complete_reason c.reason) then none else some c)
    else if is_complete_reason c.reason
    then none
    else some c
