-- ===== src/Dataset.antt =====
-- claimci/dataset_check.py: loading JSON Lines, and the checks of canonical record hashes.
mod Lines
pub mod Loading
pub mod Leakage
pub mod Alignment
unfoldable pub use Lines.{split_lines, is_blank}
use claim_ci.Prelude.{
  ℕ, zero, suc, ◌≡◌, refl, Bool, true, false, not, is_empty, ◌==◌, ltb, Option, none, some, List,
  [], ◌∷◌, ◌++◌, map, String, length, if◌then◌else◌,
}
use claim_ci.Models.{
  Result, ok, err, unreadable, malformed, no_records, uncaught, ◌>>=◌, ◌>>◌, require, or_raise,
  Finding, Datum, Evidence, DatasetHashes, OverlapSummary, rate,
}
use claim_ci.Models.Enums.{Severity, Impact}
use claim_ci.Parsing.{load_json}
use claim_ci.World.{World}
use claim_ci.Counter.{
  Counter, counter, intersection, difference, total, keys, sorted, eq_counter, count_of,
}

-- One line of the file: decode, bound the nesting, hash.
unfoldable pub hash_line : World → String → Result String
hash_line w line = do
  raw ← or_raise (w.read_json line) malformed
  sample ← load_json raw
  or_raise (w.hash_sample sample) malformed

-- the loop over the lines, which skips blank ones
unfoldable pub hash_lines : World → List String → Result (List String)
unfolding is_blank
hash_lines w [] = ok []
hash_lines w (line ∷ lines) =
    let rest = hash_lines w lines in
    if is_blank line
    then rest
    else hash_line w line >>= λ digest. rest >>= λ digests. ok (digest ∷ digests)

-- The path is resolved outside of the handlers.
unfoldable pub load_dataset : World → String → Result DatasetHashes
unfolding hash_lines split_lines
load_dataset w path = do
  text ← or_raise (w.read_text path) unreadable
  hashes ← hash_lines w (split_lines text)
  require (not (is_empty hashes)) no_records
  resolved ← or_raise (w.resolve path) uncaught
  ok (record { path = resolved; hashes = hashes })

unfoldable pub overlap_summary : String → DatasetHashes → DatasetHashes → OverlapSummary
overlap_summary experiment train eval =
    let shared = intersection (counter train.hashes) (counter eval.hashes) in
    record {
      experiment = experiment;
      train_count = length train.hashes;
      eval_count = length eval.hashes;
      overlap_count = total shared;
      overlap_rate = rate (total shared) (length eval.hashes);
      overlapping_hashes = sorted (keys shared);
    }

abbrev pub counts_evidence : OverlapSummary → Evidence
counts_evidence s =
    ("experiment", Datum.text s.experiment)
    ∷ ("train_count", Datum.count s.train_count)
    ∷ ("eval_count", Datum.count s.eval_count)
    ∷ ("overlap_count", Datum.count s.overlap_count)
    ∷ ("overlap_rate", Datum.ratio s.overlap_rate.0 s.overlap_rate.1)
    ∷ []

abbrev pub exact_leakage : OverlapSummary → Finding
exact_leakage s = record {
  rule_id = "DATASET.EXACT_LEAKAGE";
  severity = Severity.critical;
  evidence = counts_evidence s ++ ("hashes", Datum.texts s.overlapping_hashes) ∷ [];
  impact = Impact.invalidates;
}

-- The rate is written as 0.0 here, which it is.
abbrev pub no_leakage : OverlapSummary → Finding
no_leakage s = record {
  rule_id = "DATASET.NO_LEAKAGE";
  severity = Severity.verified;
  evidence = counts_evidence (record s { overlap_count = 0; overlap_rate = (0, 1) });
  impact = Impact.none;
}

unfoldable pub check_dataset_leakage :
    String → DatasetHashes → DatasetHashes → OverlapSummary × List Finding
unfolding overlap_summary
check_dataset_leakage experiment train eval =
    let summary = overlap_summary experiment train eval in
    (
      summary,
      (if ltb 0 summary.overlap_count then exact_leakage summary else no_leakage summary) ∷ [],
    )

abbrev pub count_entry : Counter → String → String × ℕ
count_entry counts digest = (digest, count_of digest counts)

-- `_hash_count_evidence`
unfoldable pub hash_count_evidence : Counter → List (String × ℕ)
hash_count_evidence counts = map (count_entry counts) (sorted (keys counts))

-- The numbers that the alignment check reports.
pub record Sides : Type 0 where
  pub matching_count : ℕ
  pub baseline_only_count : ℕ
  pub candidate_only_count : ℕ

unfoldable pub sides : DatasetHashes → DatasetHashes → Sides
sides baseline_eval candidate_eval =
    let b = counter baseline_eval.hashes in
    let c = counter candidate_eval.hashes in
    record {
      matching_count = total (intersection b c);
      baseline_only_count = total (difference b c);
      candidate_only_count = total (difference c b);
    }

unfoldable pub alignment_evidence : DatasetHashes → DatasetHashes → Evidence
unfolding sides hash_count_evidence
alignment_evidence baseline_eval candidate_eval =
    let b = counter baseline_eval.hashes in
    let c = counter candidate_eval.hashes in
    let s = sides baseline_eval candidate_eval in
    ("baseline_eval_count", Datum.count (length baseline_eval.hashes))
    ∷ ("candidate_eval_count", Datum.count (length candidate_eval.hashes))
    ∷ ("matching_count", Datum.count s.matching_count)
    ∷ ("baseline_only_count", Datum.count s.baseline_only_count)
    ∷ ("candidate_only_count", Datum.count s.candidate_only_count)
    ∷ ("baseline_only", Datum.tally (hash_count_evidence (difference b c)))
    ∷ ("candidate_only", Datum.tally (hash_count_evidence (difference c b)))
    ∷ []

unfoldable pub check_evaluation_alignment : DatasetHashes → DatasetHashes → List Finding
unfolding alignment_evidence
check_evaluation_alignment baseline_eval candidate_eval =
    (if eq_counter (counter baseline_eval.hashes) (counter candidate_eval.hashes)
      then record {
        rule_id = "DATASET.EVALUATION_ALIGNED";
        severity = Severity.verified;
        evidence = alignment_evidence baseline_eval candidate_eval;
        impact = Impact.none;
      }
      else record {
        rule_id = "DATASET.EVALUATION_MISMATCH";
        severity = Severity.critical;
        evidence = alignment_evidence baseline_eval candidate_eval;
        impact = Impact.invalidates;
      })
    ∷ []
