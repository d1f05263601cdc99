-- ===== src/Streaming/Check/Refines.antt =====
-- The streamed checks against the checks of the same records in memory.
use claim_ci.Prelude.{
  ◌<◌, ◌≡◌, ◌↔◌, refl, ap, ◌∙◌, sym, true, false, ltb, some, List, [], ◌∷◌, ◌++◌, any-append,
  eq_iff, length, arith, Bool-ext,
}
use claim_ci.Models.{Finding, OverlapSummary, DatasetHashes, any_invalidates, any_insufficient}
use claim_ci.Counter.{Counter, counter, eq_counter, total}
use claim_ci.Counter.Equal.{eq_counter_iff}
use claim_ci.Dataset.{hash_count_evidence, check_dataset_leakage, check_evaluation_alignment}
use claim_ci.Streaming.Report.{is_complete}
use claim_ci.Streaming.Store.{
  Experiment, Split, EntriesHash, DatasetMultisetIdentity, multiset_identity, Alignment,
  alignment_fact, overlap_fact,
}
use claim_ci.Streaming.Tables.{Holds}
use claim_ci.Streaming.Queries.{
  entries-SameRecords, overlap_fact-summary, total-Holds, total-SameRecords,
}
use claim_ci.Streaming.Datasets.{DatasetSplitScan}
use claim_ci.Streaming.Context.{
  DatasetScanAuditContext, DatasetOverlapFact, scan, context_overlap_fact, evaluation_identity,
  evaluation_alignment_fact,
}
use claim_ci.Streaming.Check.{
  summary_of, leakage_findings, alignment_finding, alignment_findings, eq_identity,
  check_streaming_dataset_context, experiment_name,
}

-- Both splits of an experiment were scanned to their end, and the store holds their records.
pub record Streamed (context : DatasetScanAuditContext) (e : Experiment)
    (train eval : DatasetHashes) : Type 0 where
  pub train_scan : DatasetSplitScan
  pub eval_scan : DatasetSplitScan
  pub scans_train : scan context e Split.train ≡ some train_scan
  pub scans_eval : scan context e Split.eval ≡ some eval_scan
  pub complete_train : is_complete train_scan.completeness ≡ true
  pub complete_eval : is_complete eval_scan.completeness ≡ true
  pub holds_train : Holds (context.table e Split.train) train.hashes
  pub holds_eval : Holds (context.table e Split.eval) eval.hashes
  pub some_eval : 0 < length eval.hashes

module _ {context : DatasetScanAuditContext} {e : Experiment} {train eval : DatasetHashes}
    (h : Streamed context e train eval) where
  fact_of : DatasetOverlapFact
  fact_of = record {
    train_scan = h.train_scan;
    eval_scan = h.eval_scan;
    counts = overlap_fact context.table e context.preview_limit;
  }

  gives_fact : context_overlap_fact context e ≡ some fact_of
  unfolding context_overlap_fact fact_of
  gives_fact = rw (h.scans_train, h.scans_eval) refl

  leakage-invalidates :
      any_invalidates (leakage_findings e fact_of)
      ≡ any_invalidates (check_dataset_leakage (experiment_name e) train eval).1
  unfolding leakage_findings check_dataset_leakage fact_of
  leakage-invalidates = ground (
    arith,
    overlap_fact-summary context.table e context.preview_limit (experiment_name e) train eval
        h.holds_train h.holds_eval,
    h.complete_train,
    h.complete_eval,
  )

  leakage_sufficient : any_insufficient (leakage_findings e fact_of) ≡ false
  unfolding leakage_findings fact_of
  leakage_sufficient = ground (arith, h.complete_train, h.complete_eval)

  identity_of : EntriesHash → DatasetMultisetIdentity
  identity_of hash = record {
    record_count = total (context.table e Split.eval);
    canonical_sha256 = hash (hash_count_evidence (context.table e Split.eval));
  }

  gives_identity :
      (hash : EntriesHash) → evaluation_identity hash context e ≡ some (some (identity_of hash))
  unfolding evaluation_identity multiset_identity identity_of
  gives_identity hash =
      let positive : ltb 0 (total (context.table e Split.eval)) ≡ true =
        ground (arith, total-Holds _ _ h.holds_eval, h.some_eval) in
      rw (h.scans_eval, h.complete_eval, positive) refl

-- Equal hashes of the two ordered entries mean equal entries.
abbrev pub Separates : EntriesHash → Counter → Counter → Type 0
Separates hash c d =
    hash (hash_count_evidence c) ≡ hash (hash_count_evidence d)
    → hash_count_evidence c ≡ hash_count_evidence d

eq_identity_iff :
    (c d : DatasetMultisetIdentity)
    → (eq_identity c d ≡ true)
      ↔ ((c.record_count ≡ d.record_count) × (c.canonical_sha256 ≡ d.canonical_sha256))
eq_identity_iff c d = ground (arith, eq_iff c.canonical_sha256 d.canonical_sha256)

module _ (hash : EntriesHash) (context : DatasetScanAuditContext) (bt be ct ce : DatasetHashes)
    (b : Streamed context Experiment.baseline bt be)
    (c : Streamed context Experiment.candidate ct ce)
    (separates : Separates hash
      (context.table Experiment.baseline Split.eval)
      (context.table Experiment.candidate Split.eval)) where
  same_identity :
      eq_identity (identity_of b hash) (identity_of c hash)
      ≡ eq_counter (counter be.hashes) (counter ce.hashes)
  unfolding identity_of
  same_identity =
      let (there, back) = eq_identity_iff (identity_of b hash) (identity_of c hash) in
      let (entries, records) =
        entries-SameRecords _ _ be.hashes ce.hashes b.holds_eval c.holds_eval in
      let (counted, compared) = eq_counter_iff be.hashes ce.hashes in
      Bool-ext _ _ (λ e. compared (entries (separates (there e).1)))
        (λ e. back (
          total-SameRecords _ _ be.hashes ce.hashes b.holds_eval c.holds_eval (counted e),
          ap hash (records (counted e)),
        ))

  alignment_of : Alignment
  alignment_of =
      alignment_fact context.table (identity_of b hash) (identity_of c hash) context.preview_limit

  gives_alignment : evaluation_alignment_fact hash context ≡ some (some alignment_of)
  unfolding evaluation_alignment_fact alignment_of
  gives_alignment = rw (gives_identity b hash, gives_identity c hash) refl

  found : Finding
  found = alignment_finding alignment_of b.eval_scan c.eval_scan

  gives_findings : alignment_findings context (some alignment_of) ≡ some (found ∷ [])
  unfolding alignment_findings found
  gives_findings = rw (b.scans_eval, c.scans_eval) refl

  alignment-invalidates :
      any_invalidates (found ∷ []) ≡ any_invalidates (check_evaluation_alignment be ce)
  unfolding found alignment_finding alignment_of alignment_fact check_evaluation_alignment
  alignment-invalidates = ground (arith, same_identity)

  alignment_sufficient : any_insufficient (found ∷ []) ≡ false
  unfolding found alignment_finding
  alignment_sufficient = ground arith

  streamed_findings : List Finding
  streamed_findings =
      leakage_findings Experiment.baseline (fact_of b)
      ++ (leakage_findings Experiment.candidate (fact_of c) ++ found ∷ [])

  streamed_summaries : List OverlapSummary
  streamed_summaries =
      summary_of Experiment.baseline (fact_of b) ∷ summary_of Experiment.candidate (fact_of c) ∷ []

  gives_check :
      check_streaming_dataset_context hash context ≡ some (streamed_summaries, streamed_findings)
  unfolding check_streaming_dataset_context streamed_summaries streamed_findings
  gives_check = rw (gives_fact b, gives_fact c, gives_alignment, gives_findings) refl

-- The findings on the same records in memory.
unfoldable pub memory_findings :
    DatasetHashes → DatasetHashes → DatasetHashes → DatasetHashes → List Finding
unfolding check_dataset_leakage check_evaluation_alignment
memory_findings bt be ct ce =
    (check_dataset_leakage "baseline" bt be).1
    ++ ((check_dataset_leakage "candidate" ct ce).1 ++ check_evaluation_alignment be ce)

-- Both checks agree on the verdict's impacts.
pub record Agrees (streamed memory : List Finding) : Type 0 where
  pub invalidates : any_invalidates streamed ≡ any_invalidates memory
  pub insufficient : any_insufficient streamed ≡ any_insufficient memory

memory-sufficient :
    (bt be ct ce : DatasetHashes) → any_insufficient (memory_findings bt be ct ce) ≡ false
unfolding memory_findings check_dataset_leakage check_evaluation_alignment
memory-sufficient bt be ct ce = ground arith

either_invalidates :
    (xs ys zs us vs ws : List Finding)
    → any_invalidates xs ≡ any_invalidates us
    → any_invalidates ys ≡ any_invalidates vs
    → any_invalidates zs ≡ any_invalidates ws
    → any_invalidates (xs ++ (ys ++ zs)) ≡ any_invalidates (us ++ (vs ++ ws))
either_invalidates xs ys zs us vs ws h k l =
    rw (any-append, any-append, any-append, any-append, h, k, l) refl

either_sufficient :
    (xs ys zs : List Finding)
    → any_insufficient xs ≡ false
    → any_insufficient ys ≡ false
    → any_insufficient zs ≡ false
    → any_insufficient (xs ++ (ys ++ zs)) ≡ false
either_sufficient xs ys zs h k l = rw (any-append, any-append, h, k, l) refl

-- Complete scans whose rows the store holds are checked as their records are in memory.
pub Streamed-Agrees :
    (hash : EntriesHash) (context : DatasetScanAuditContext) (bt be ct ce : DatasetHashes)
    → Streamed context Experiment.baseline bt be
    → Streamed context Experiment.candidate ct ce
    → Separates hash
        (context.table Experiment.baseline Split.eval)
        (context.table Experiment.candidate Split.eval)
    → (found : List OverlapSummary × List Finding) × (check_streaming_dataset_context hash context
        ≡ some found)
      × Agrees found.1 (memory_findings bt be ct ce)
unfolding streamed_findings memory_findings
Streamed-Agrees hash context bt be ct ce b c separates = (
  (
    streamed_summaries hash context bt be ct ce b c separates,
    streamed_findings hash context bt be ct ce b c separates,
  ),
  gives_check hash context bt be ct ce b c separates,
  record {
    invalidates =
        either_invalidates (leakage_findings Experiment.baseline (fact_of b))
          (leakage_findings Experiment.candidate (fact_of c))
          (found hash context bt be ct ce b c separates ∷ [])
          (check_dataset_leakage "baseline" bt be).1 (check_dataset_leakage "candidate" ct ce).1
          (check_evaluation_alignment be ce) (leakage-invalidates b) (leakage-invalidates c)
          (alignment-invalidates hash context bt be ct ce b c separates);
    insufficient =
        either_sufficient (leakage_findings Experiment.baseline (fact_of b))
          (leakage_findings Experiment.candidate (fact_of c))
          (found hash context bt be ct ce b c separates ∷ []) (leakage_sufficient b)
          (leakage_sufficient c) (alignment_sufficient hash context bt be ct ce b c separates)
        ∙ sym (memory-sufficient bt be ct ce);
  },
)
