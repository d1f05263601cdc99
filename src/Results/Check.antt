-- ===== src/Results/Check.antt =====
-- `check_results`: both summaries, the claim, and what gates the verdict.
use claim_ci.Prelude.{
  ℕ, ◌+◌, ◌*◌, Bool, true, not, ◌&&◌, leb, ◌==◌, min, max, any, when, length, Option, none, some,
  List, [], ◌∷◌, ◌++◌, String, starts_with,
}
use claim_ci.Decimal.{eq_decimal}
use claim_ci.Floats.{Floats}
use claim_ci.Value.{Float}
use claim_ci.Models.{Result, ok, ◌>>=◌, Finding, Datum, MetricSummary, DirectionValue}
use claim_ci.Models.Enums.{Severity, Impact}
use claim_ci.Results.{LoadedResults, decimal_number, summarize_runs, seed_findings}
use claim_ci.Results.Compare.{metric_summary_comparison}

pub record ResultCheck : Type 0 where
  pub baseline_summary : MetricSummary
  pub candidate_summary : MetricSummary
  pub absolute_improvement : Float
  pub relative_improvement : Option Float
  pub findings : List Finding

abbrev pub summary_mismatch : String → Float → Float → Finding
summary_mismatch experiment claimed recomputed = record {
  rule_id = "RESULT.SUMMARY_MISMATCH";
  severity = Severity.critical;
  evidence =
      ("experiment", Datum.text experiment)
      ∷ ("claimed", Datum.real claimed)
      ∷ ("recomputed", Datum.real recomputed)
      ∷ [];
  impact = Impact.invalidates;
}

-- The claimed summary, where there is one, is the recomputed mean.
unfoldable pub summary_agrees : Floats → Option Float → Float → Result Bool
summary_agrees fl none mean = ok true
summary_agrees fl (some claimed) mean =
    decimal_number fl claimed >>= λ c. decimal_number fl mean >>= λ m. ok (eq_decimal c m)

abbrev pub mismatch_unless : Bool → String → Option Float → Float → List Finding
mismatch_unless agrees experiment none mean = []
mismatch_unless agrees experiment (some claimed) mean =
    when (not agrees) (summary_mismatch experiment claimed mean ∷ [])

-- `_summary_mismatch_finding`, as what it adds to the findings
unfoldable pub summary_mismatch_finding :
    Floats → String → LoadedResults → MetricSummary → Result (List Finding)
summary_mismatch_finding fl experiment loaded summary =
    summary_agrees fl loaded.claimed_summary summary.mean >>= λ agrees.
    ok (mismatch_unless agrees experiment loaded.claimed_summary summary.mean)

-- `smaller and larger - smaller >= 2 and larger / smaller >= 3.0`. The division is exact enough
-- for the test below 2 ^ 51 runs.
unfoldable pub is_imbalanced : ℕ → ℕ → Bool
is_imbalanced baseline_count candidate_count =
    let smaller = min baseline_count candidate_count in
    let larger = max baseline_count candidate_count in
    not (smaller == 0) && (leb (smaller + 2) larger && leb (3 * smaller) larger)

abbrev pub imbalance : ℕ → ℕ → Finding
imbalance baseline_count candidate_count = record {
  rule_id = "SEED.IMBALANCE";
  severity = Severity.warning;
  evidence =
      ("baseline_count", Datum.count baseline_count)
      ∷ ("candidate_count", Datum.count candidate_count)
      ∷ (
        "ratio",
        Datum.ratio (max baseline_count candidate_count) (min baseline_count candidate_count),
      )
      ∷ [];
  impact = Impact.none;
}

abbrev pub seed_evidence_verified : ℕ → ℕ → Finding
seed_evidence_verified baseline_count candidate_count = record {
  rule_id = "SEED.EVIDENCE_VERIFIED";
  severity = Severity.verified;
  evidence =
      ("baseline_count", Datum.count baseline_count)
      ∷ ("candidate_count", Datum.count candidate_count)
      ∷ [];
  impact = Impact.none;
}

abbrev pub recomputed : String → MetricSummary → MetricSummary → Finding
recomputed rule baseline candidate = record {
  rule_id = rule;
  severity = Severity.verified;
  evidence = ("baseline", Datum.summary baseline) ∷ ("candidate", Datum.summary candidate) ∷ [];
  impact = Impact.none;
}

-- `any(finding.rule_id.startswith("SEED.") for finding in findings)`
abbrev pub is_seed_rule : Finding → Bool
is_seed_rule f = starts_with f.rule_id "SEED."

-- The findings before the one that says that the seeds are in order.
unfoldable pub evidence_findings :
    LoadedResults
    → LoadedResults
    → MetricSummary
    → MetricSummary
    → List Finding
    → List Finding
    → List Finding
evidence_findings baseline candidate bs cs baseline_mismatch candidate_mismatch =
    let b = length baseline.values in
    let c = length candidate.values in
    recomputed "RESULT.RECOMPUTED" bs cs
    ∷ (baseline_mismatch
        ++ (seed_findings "baseline" baseline
            ++ (candidate_mismatch
                ++ (seed_findings "candidate" candidate
                    ++ when (is_imbalanced b c) (imbalance b c ∷ [])))))

unfoldable pub check_results :
    Floats → LoadedResults → LoadedResults → Float → DirectionValue → Result ResultCheck
unfolding evidence_findings
check_results fl baseline candidate minimum declared = do
  bs ← summarize_runs fl baseline.values
  cs ← summarize_runs fl candidate.values
  compared ← metric_summary_comparison fl bs cs minimum declared
  baseline_mismatch ← summary_mismatch_finding fl "baseline" baseline bs
  candidate_mismatch ← summary_mismatch_finding fl "candidate" candidate cs
  let findings = evidence_findings baseline candidate bs cs baseline_mismatch candidate_mismatch
  ok (record {
    baseline_summary = bs;
    candidate_summary = cs;
    absolute_improvement = compared.absolute_improvement;
    relative_improvement = compared.relative_improvement;
    findings =
        findings
        ++ (when (not (any is_seed_rule findings))
              (seed_evidence_verified (length baseline.values) (length candidate.values) ∷ [])
            ++ compared.finding ∷ []);
  })
