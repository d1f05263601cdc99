-- ===== src/Results/Gates.antt =====
-- Which outcomes of `check_results` gate the verdict.
use claim_ci.Prelude.{
  ◌≡◌, refl, ◌∙◌, subst, Bool, true, false, not, ◌||◌, any, when, any-append, any-when, bool_laws,
  Option, none, some, List, [], ◌∷◌, ◌++◌, String, is_empty, arith,
}
use claim_ci.Floats.{Floats}
use claim_ci.Value.{Float}
use claim_ci.Models.{
  ok, >>=-eq-ok, ok-injective, Finding, MetricSummary, DirectionValue, any_invalidates,
  any_insufficient,
}
use claim_ci.Models.Enums.{is_invalidates, is_insufficient}
use claim_ci.Results.{LoadedResults, summarize_runs, seed_findings}
use claim_ci.Results.Compare.{Comparison, metric_summary_comparison}
use claim_ci.Results.Check.{
  ResultCheck, summary_agrees, summary_mismatch_finding, mismatch_unless, evidence_findings,
  check_results,
}
use claim_ci.Results.Claim.{metric_summary_comparison-Compared}
use claim_ci.Results.Independence.{seed_findings-gates}

-- What a mismatch between a claimed and a recomputed summary adds.
record Agrees (fl : Floats) (loaded : LoadedResults) (s : MetricSummary) (fs : List Finding)
    : Type 0 where
  agrees : Bool
  agrees_eq : summary_agrees fl loaded.claimed_summary s.mean ≡ ok agrees
  invalidates : any_invalidates fs ≡ not agrees
  insufficient : any_insufficient fs ≡ false

mismatch-gates :
    (fl : Floats) (experiment : String) (o : Option Float) (m : Float) (agrees : Bool)
    → summary_agrees fl o m ≡ ok agrees
    → (any_invalidates (mismatch_unless agrees experiment o m) ≡ not agrees)
      × (any_insufficient (mismatch_unless agrees experiment o m) ≡ false)
unfolding summary_agrees
mismatch-gates fl experiment none m false h = cc
mismatch-gates fl experiment none m true h = (refl, refl)
mismatch-gates fl experiment (some x) m true h = (refl, refl)
mismatch-gates fl experiment (some x) m false h = (refl, refl)

summary-Agrees :
    (fl : Floats) (experiment : String) (loaded : LoadedResults) (s : MetricSummary)
    (fs : List Finding)
    → summary_mismatch_finding fl experiment loaded s ≡ ok fs
    → Agrees fl loaded s fs
unfolding summary_mismatch_finding
summary-Agrees fl experiment loaded s fs h =
    let (agrees, agrees_eq, found) =
      >>=-eq-ok (summary_agrees fl loaded.claimed_summary s.mean) _ h in
    let gates = mismatch-gates fl experiment loaded.claimed_summary s.mean agrees agrees_eq in
    subst (Agrees fl loaded s) (ok-injective found) (record {
      agrees = agrees;
      agrees_eq = agrees_eq;
      invalidates = gates.0;
      insufficient = gates.1;
    })

-- What a check that returns has established.
pub record Checked (fl : Floats) (b c : LoadedResults) (minimum : Float) (declared : DirectionValue)
    (r : ResultCheck) : Type 0 where
  pub baseline_eq : summarize_runs fl b.values ≡ ok r.baseline_summary
  pub candidate_eq : summarize_runs fl c.values ≡ ok r.candidate_summary
  pub compared : Comparison
  pub compared_eq :
      metric_summary_comparison fl r.baseline_summary r.candidate_summary minimum declared
      ≡ ok compared
  pub baseline_agrees : Bool
  pub candidate_agrees : Bool
  pub baseline_agrees_eq :
      summary_agrees fl b.claimed_summary r.baseline_summary.mean ≡ ok baseline_agrees
  pub candidate_agrees_eq :
      summary_agrees fl c.claimed_summary r.candidate_summary.mean ≡ ok candidate_agrees
  pub invalidates :
      any_invalidates r.findings
      ≡ (not baseline_agrees || (not candidate_agrees || is_invalidates compared.finding.impact))
  pub insufficient : any_insufficient r.findings ≡ (
      not (is_empty (seed_findings "baseline" b)) || not (is_empty (seed_findings "candidate" c)))

evidence-invalidates :
    (b c : LoadedResults) (bs cs : MetricSummary) (bm cm : List Finding)
    → any_invalidates (evidence_findings b c bs cs bm cm)
      ≡ (any_invalidates bm || any_invalidates cm)
unfolding evidence_findings
evidence-invalidates b c bs cs bm cm =
    simp (any-append, any-when, bool_laws)
      (rw ((seed_findings-gates "baseline" b).1, (seed_findings-gates "candidate" c).1)
        (ground arith))

evidence-insufficient :
    (b c : LoadedResults) (bs cs : MetricSummary) (bm cm : List Finding)
    → any_insufficient bm ≡ false
    → any_insufficient cm ≡ false
    → any_insufficient (evidence_findings b c bs cs bm cm) ≡ (
        not (is_empty (seed_findings "baseline" b)) || not (is_empty (seed_findings "candidate" c)))
unfolding evidence_findings
evidence-insufficient b c bs cs bm cm h k =
    simp (any-append, any-when, bool_laws)
      (rw (h, k, (seed_findings-gates "baseline" b).0, (seed_findings-gates "candidate" c).0)
        (ground arith))

-- What is appended after them.
appended :
    (p : Finding → Bool) (fs : List Finding) (fired : Bool) (x f : Finding)
    → p x ≡ false
    → any p (fs ++ (when fired (x ∷ []) ++ f ∷ [])) ≡ (any p fs || p f)
appended p fs fired x f h = simp (any-append, any-when, bool_laws) (rw h (ground arith))

-- A check of two experiments that returns has summarised both, compared their means, and compared
-- each claimed summary to its recomputed mean. Its findings invalidate the claim exactly when a
-- claimed summary is not the recomputed mean or the improvement misses the threshold; the evidence
-- is insufficient exactly when the seeds of an experiment are not in order.
pub check_results-Checked :
    (fl : Floats) (b c : LoadedResults) (minimum : Float) (declared : DirectionValue)
    (r : ResultCheck)
    → check_results fl b c minimum declared ≡ ok r
    → Checked fl b c minimum declared r
unfolding check_results
check_results-Checked fl b c minimum declared r h =
    let (bs, bs_eq, h1) = >>=-eq-ok (summarize_runs fl b.values) _ h in
    let (cs, cs_eq, h2) = >>=-eq-ok (summarize_runs fl c.values) _ h1 in
    let (compared, compared_eq, h3) =
      >>=-eq-ok (metric_summary_comparison fl bs cs minimum declared) _ h2 in
    let (bm, bm_eq, h4) = >>=-eq-ok (summary_mismatch_finding fl "baseline" b bs) _ h3 in
    let (cm, cm_eq, h5) = >>=-eq-ok (summary_mismatch_finding fl "candidate" c cs) _ h4 in
    let ba = summary-Agrees fl "baseline" b bs bm bm_eq in
    let ca = summary-Agrees fl "candidate" c cs cm cm_eq in
    let claim = metric_summary_comparison-Compared fl bs cs minimum declared compared compared_eq in
    subst (Checked fl b c minimum declared) (ok-injective h5) (record {
      baseline_eq = bs_eq;
      candidate_eq = cs_eq;
      compared = compared;
      compared_eq = compared_eq;
      baseline_agrees = ba.agrees;
      candidate_agrees = ca.agrees;
      baseline_agrees_eq = ba.agrees_eq;
      candidate_agrees_eq = ca.agrees_eq;
      invalidates =
          appended (λ f. is_invalidates f.impact) (evidence_findings b c bs cs bm cm) _ _
            compared.finding refl
          ∙ rw (evidence-invalidates b c bs cs bm cm, ba.invalidates, ca.invalidates)
              (ground arith);
      insufficient =
          appended (λ f. is_insufficient f.impact) (evidence_findings b c bs cs bm cm) _ _
            compared.finding refl
          ∙ rw
              (
                evidence-insufficient b c bs cs bm cm ba.insufficient ca.insufficient,
                claim.insufficient,
              )
              (ground arith);
    })
