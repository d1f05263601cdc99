-- ===== src/Streaming/Check/Incomplete.antt =====
-- A scan that did not reach the end of its file, and the verdict.
use claim_ci.Prelude.{
  ◌≡◌, ◌≢◌, refl, ap, ◌∙◌, sym, subst, true, false, any-append, Option, some, List, [], ◌∷◌, ◌++◌,
  arith,
}
use claim_ci.Prelude.Optional.{◌>>=◌, >>=-eq-some, some-injective}
use claim_ci.Models.{Finding, OverlapSummary, any_insufficient}
use claim_ci.Models.Enums.{Verdict}
use claim_ci.Audit.Research.{determine_verdict}
use claim_ci.Streaming.Report.{is_complete}
use claim_ci.Streaming.Store.{Experiment, Split, EntriesHash, overlap_fact}
use claim_ci.Streaming.Datasets.{DatasetSplitScan}
use claim_ci.Streaming.Context.{
  DatasetScanAuditContext, DatasetOverlapFact, is_complete_fact, scan, context_overlap_fact,
  evaluation_alignment_fact,
}
use claim_ci.Streaming.Check.{
  summary_of, leakage_findings, alignment_findings, check_streaming_dataset_context,
}

fact-scans :
    (context : DatasetScanAuditContext) (e : Experiment) (fact : DatasetOverlapFact)
    → context_overlap_fact context e ≡ some fact
    → (scan context e Split.train ≡ some fact.train_scan)
      × (scan context e Split.eval ≡ some fact.eval_scan)
unfolding context_overlap_fact
fact-scans context e fact h =
    let made : DatasetSplitScan → DatasetSplitScan → DatasetOverlapFact = λ t v. record {
      train_scan = t;
      eval_scan = v;
      counts = overlap_fact context.table e context.preview_limit;
    } in
    let (t, et, h1) =
      >>=-eq-some (scan context e Split.train)
        (λ t. scan context e Split.eval >>= λ v. some (made t v)) h in
    let (v, ev, h2) = >>=-eq-some (scan context e Split.eval) (λ v. some (made t v)) h1 in
    let same : made t v ≡ fact = some-injective h2 in
    (et ∙ ap (λ f. some f.train_scan) same, ev ∙ ap (λ f. some f.eval_scan) same)

-- One of its scans is incomplete.
fact_incomplete :
    (context : DatasetScanAuditContext) (e : Experiment) (fact : DatasetOverlapFact)
    → context_overlap_fact context e ≡ some fact
    → (s : Split) (x : DatasetSplitScan) → scan context e s ≡ some x
    → is_complete x.completeness ≡ false
    → is_complete_fact fact ≡ false
fact_incomplete context e fact h Split.train x found incomplete =
    let same : x ≡ fact.train_scan = some-injective (sym found ∙ (fact-scans context e fact h).0) in
    let here : is_complete fact.train_scan.completeness ≡ false =
      subst (λ y. is_complete y.completeness ≡ false) same incomplete in
    rw here refl
fact_incomplete context e fact h Split.eval x found incomplete =
    let same : x ≡ fact.eval_scan = some-injective (sym found ∙ (fact-scans context e fact h).1) in
    let here : is_complete fact.eval_scan.completeness ≡ false =
      subst (λ y. is_complete y.completeness ≡ false) same incomplete in
    ground (arith, here)

leakage-insufficient :
    (e : Experiment) (fact : DatasetOverlapFact)
    → is_complete_fact fact ≡ false
    → any_insufficient (leakage_findings e fact) ≡ true
unfolding leakage_findings
leakage-insufficient e fact h = ground (arith, h)

-- The findings of one experiment stand among all.
findings_of :
    (hash : EntriesHash) (context : DatasetScanAuditContext)
    (found : List OverlapSummary × List Finding)
    → check_streaming_dataset_context hash context ≡ some found
    → (b c : DatasetOverlapFact) × (compared : List Finding) × (context_overlap_fact context
          Experiment.baseline
        ≡ some b)
      × (context_overlap_fact context Experiment.candidate ≡ some c)
      × (leakage_findings Experiment.baseline b
            ++ (leakage_findings Experiment.candidate c ++ compared)
          ≡ found.1)
unfolding check_streaming_dataset_context
findings_of hash context found h =
    let made : DatasetOverlapFact
        → DatasetOverlapFact
        → List Finding
        → Option (List OverlapSummary × List Finding) =
      λ b c compared. some (
        summary_of Experiment.baseline b ∷ summary_of Experiment.candidate c ∷ [],
        leakage_findings Experiment.baseline b
            ++ (leakage_findings Experiment.candidate c ++ compared),
      ) in
    let (b, eb, h1) =
      >>=-eq-some (context_overlap_fact context Experiment.baseline)
        (λ b. context_overlap_fact context Experiment.candidate >>= λ c.
          evaluation_alignment_fact hash context >>= λ a. alignment_findings context a >>= made b c)
        h in
    let (c, ec, h2) =
      >>=-eq-some (context_overlap_fact context Experiment.candidate)
        (λ c.
          evaluation_alignment_fact hash context >>= λ a. alignment_findings context a >>= made b c)
        h1 in
    let (a, _, h3) =
      >>=-eq-some (evaluation_alignment_fact hash context)
        (λ a. alignment_findings context a >>= made b c) h2 in
    let (compared, _, h4) = >>=-eq-some (alignment_findings context a) (made b c) h3 in
    (
      b,
      c,
      compared,
      eb,
      ec,
      ap (λ (o : List OverlapSummary × List Finding). o.1) (some-injective h4),
    )

insufficient_among :
    (e : Experiment) (hash : EntriesHash) (context : DatasetScanAuditContext)
    (found : List OverlapSummary × List Finding)
    → check_streaming_dataset_context hash context ≡ some found
    → (s : Split) (x : DatasetSplitScan) → scan context e s ≡ some x
    → is_complete x.completeness ≡ false
    → any_insufficient found.1 ≡ true
insufficient_among Experiment.baseline hash context found h s x there incomplete =
    let (b, c, compared, eb, ec, same) = findings_of hash context found h in
    subst (λ fs. any_insufficient fs ≡ true) same
      (rw
        (
          any-append,
          leakage-insufficient Experiment.baseline b
              (fact_incomplete context Experiment.baseline b eb s x there incomplete),
        )
        refl)
insufficient_among Experiment.candidate hash context found h s x there incomplete =
    let (b, c, compared, eb, ec, same) = findings_of hash context found h in
    subst (λ fs. any_insufficient fs ≡ true) same
      (rw
        (
          any-append,
          any-append,
          leakage-insufficient Experiment.candidate c
              (fact_incomplete context Experiment.candidate c ec s x there incomplete),
        )
        (ground arith))

weak-verdict :
    (findings : List Finding)
    → any_insufficient findings ≡ true
    → determine_verdict findings ≢ Verdict.supported
unfolding determine_verdict
weak-verdict findings h = ground (arith, h)

-- Where the streamed checks return and the scan of one of the four splits is not complete, the
-- findings call the evidence insufficient, and no verdict on them and any other findings is SUPPORTED.
pub check_streaming_dataset_context-incomplete :
    (hash : EntriesHash) (context : DatasetScanAuditContext)
    (found : List OverlapSummary × List Finding) (others : List Finding) (e : Experiment)
    (s : Split) (x : DatasetSplitScan)
    → check_streaming_dataset_context hash context ≡ some found
    → scan context e s ≡ some x
    → is_complete x.completeness ≡ false
    → (any_insufficient found.1 ≡ true)
      × (determine_verdict (others ++ found.1) ≢ Verdict.supported)
check_streaming_dataset_context-incomplete hash context found others e s x h there incomplete =
    let here = insufficient_among e hash context found h s x there incomplete in
    (here, weak-verdict (others ++ found.1) (rw (any-append, here) (ground arith)))
