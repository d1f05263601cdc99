-- ===== src/Results/Verified.antt =====
-- `check_results`: when it reports that the seed evidence is verified.
use claim_ci.Prelude.{
  ◌≡◌, refl, sym, ◌∙◌, ap, Bool, true, false, not, ◌&&◌, any, when, length, any-append, any-when,
  bool_laws, is_empty, is_empty-append, is_empty-when, not-not, Option, none, some, List, [], ◌∷◌,
  ◌++◌, String, str_eq, arith,
}
use claim_ci.Decimal.{le_decimal}
use claim_ci.Floats.{Floats}
use claim_ci.Value.{Float}
use claim_ci.Models.{
  ok, >>=-eq-ok, ok-injective, Finding, Evidence, MetricSummary, DirectionValue, coerce_direction,
  require, bad_threshold,
}
use claim_ci.Results.{LoadedResults, summarize_runs, seed_findings, decimal_number, finite_float}
use claim_ci.Results.Compare.{
  Comparison, metric_summary_comparison, claim_finding, is_threshold, absolute,
}
use claim_ci.Results.Check.{
  ResultCheck, summary_agrees, summary_mismatch_finding, mismatch_unless, summary_mismatch,
  evidence_findings, check_results, is_seed_rule, is_imbalanced,
}

abbrev pub says_verified : Finding → Bool
says_verified f = str_eq f.rule_id "SEED.EVIDENCE_VERIFIED"

seeds-rule :
    (experiment : String) (loaded : LoadedResults)
    → (any is_seed_rule (seed_findings experiment loaded)
        ≡ not (is_empty (seed_findings experiment loaded)))
      × (any says_verified (seed_findings experiment loaded) ≡ false)
unfolding seed_findings
seeds-rule experiment loaded = (
  simp (any-append, any-when, is_empty-append, is_empty-when, not-not, bool_laws) (ground arith),
  simp (any-append, any-when, bool_laws),
)

-- A test that fails on the mismatch of a summary.
mismatch-any :
    (p : Finding → Bool) (fl : Floats) (experiment : String) (loaded : LoadedResults)
    (s : MetricSummary) (fs : List Finding)
    → ((x m : Float) → p (summary_mismatch experiment x m) ≡ false)
    → summary_mismatch_finding fl experiment loaded s ≡ ok fs
    → any p fs ≡ false
unfolding summary_mismatch_finding
mismatch-any p fl experiment loaded s fs never h =
    let (agrees, _, found) = >>=-eq-ok (summary_agrees fl loaded.claimed_summary s.mean) _ h in
    ap (any p) (sym (ok-injective found)) ∙ go agrees loaded.claimed_summary
  where
    go :
        (agrees : Bool) (o : Option Float)
        → any p (mismatch_unless agrees experiment o s.mean) ≡ false
    go agrees none = refl
    go true (some x) = refl
    go false (some x) = rw (never x s.mean) refl

-- The claim's finding is no seed finding.
claim-not_verified : (met : Bool) (e : Evidence) → says_verified (claim_finding met e) ≡ false
unfolding claim_finding
claim-not_verified true e = refl
claim-not_verified false e = refl

comparison-not_verified :
    (fl : Floats) (b c : MetricSummary) (minimum : Float) (declared : DirectionValue)
    (r : Comparison)
    → metric_summary_comparison fl b c minimum declared ≡ ok r
    → says_verified r.finding ≡ false
unfolding metric_summary_comparison
comparison-not_verified fl b c minimum declared r h =
    let (towards, _, h1) = >>=-eq-ok (coerce_direction declared) _ h in
    let (before, _, h2) = >>=-eq-ok (decimal_number fl b.mean) _ h1 in
    let (after, _, h3) = >>=-eq-ok (decimal_number fl c.mean) _ h2 in
    let (_, _, h4) = >>=-eq-ok (require (is_threshold minimum) bad_threshold) _ h3 in
    let (threshold, _, h5) = >>=-eq-ok (decimal_number fl minimum) _ h4 in
    let (public, _, h6) = >>=-eq-ok (finite_float fl (absolute towards before after)) _ h5 in
    ap (λ r. says_verified r.finding) (sym (ok-injective h6))
    ∙ claim-not_verified (le_decimal threshold (absolute towards before after)) _

-- The seeds of both experiments are in order, and so are the numbers of runs.
abbrev pub seeds_in_order : LoadedResults → LoadedResults → Bool
seeds_in_order b c =
    is_empty (seed_findings "baseline" b)
    && (is_empty (seed_findings "candidate" c)
        && not (is_imbalanced (length b.values) (length c.values)))

evidence-any :
    (b c : LoadedResults) (bs cs : MetricSummary) (bm cm : List Finding)
    → any is_seed_rule bm ≡ false
    → any is_seed_rule cm ≡ false
    → any says_verified bm ≡ false
    → any says_verified cm ≡ false
    → (not (any is_seed_rule (evidence_findings b c bs cs bm cm)) ≡ seeds_in_order b c)
      × (any says_verified (evidence_findings b c bs cs bm cm) ≡ false)
unfolding evidence_findings
evidence-any b c bs cs bm cm h1 h2 h3 h4 =
    let first = seeds-rule "baseline" b in
    let second = seeds-rule "candidate" c in
    (
      simp (any-append, any-when, bool_laws) (rw (h1, h2, first.0, second.0) (ground arith)),
      simp (any-append, any-when, bool_laws) (rw (h3, h4, first.1, second.1) (ground arith)),
    )

appended :
    (fs : List Finding) (fired : Bool) (x f : Finding)
    → says_verified x ≡ true
    → says_verified f ≡ false
    → any says_verified fs ≡ false
    → any says_verified (fs ++ (when fired (x ∷ []) ++ f ∷ [])) ≡ fired
appended fs fired x f h k l = simp (any-append, any-when, bool_laws) (rw (h, k, l) (ground arith))

-- A check of two experiments that returns reports SEED.EVIDENCE_VERIFIED exactly when the seeds of
-- neither give a finding and their numbers of runs are not imbalanced.
pub check_results-seeds_in_order :
    (fl : Floats) (b c : LoadedResults) (minimum : Float) (declared : DirectionValue)
    (r : ResultCheck)
    → check_results fl b c minimum declared ≡ ok r
    → any says_verified r.findings ≡ seeds_in_order b c
unfolding check_results
check_results-seeds_in_order fl b c minimum declared r h =
    let (bs, _, h1) = >>=-eq-ok (summarize_runs fl b.values) _ h in
    let (cs, _, h2) = >>=-eq-ok (summarize_runs fl c.values) _ h1 in
    let (compared, claim, h3) =
      >>=-eq-ok (metric_summary_comparison fl bs cs minimum declared) _ h2 in
    let (bm, bm_eq, h4) = >>=-eq-ok (summary_mismatch_finding fl "baseline" b bs) _ h3 in
    let (cm, cm_eq, h5) = >>=-eq-ok (summary_mismatch_finding fl "candidate" c cs) _ h4 in
    let (in_order, silent) =
      evidence-any b c bs cs bm cm
        (mismatch-any is_seed_rule fl "baseline" b bs bm (λ x m. refl) bm_eq)
        (mismatch-any is_seed_rule fl "candidate" c cs cm (λ x m. refl) cm_eq)
        (mismatch-any says_verified fl "baseline" b bs bm (λ x m. refl) bm_eq)
        (mismatch-any says_verified fl "candidate" c cs cm (λ x m. refl) cm_eq) in
    ap (λ r. any says_verified r.findings) (sym (ok-injective h5))
    ∙ appended (evidence_findings b c bs cs bm cm) _ _ compared.finding refl
        (comparison-not_verified fl bs cs minimum declared compared claim) silent
    ∙ in_order
