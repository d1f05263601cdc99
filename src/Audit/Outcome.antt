-- ===== src/Audit/Outcome.antt =====
-- What it takes for a part of an audit's findings to gate nothing.
use claim_ci.Prelude.{
  ◌≡◌, refl, sym, ◌∙◌, subst, Bool, true, false, not, is_empty, some, List, [], ◌∷◌, ◌++◌, String,
}
use claim_ci.Value.{Fields}
use claim_ci.Decimal.{le_decimal}
use claim_ci.Models.{
  Result, ok, err, >>=-eq-ok, ok-injective, Finding, DirectionValue, DatasetHashes,
}
use claim_ci.World.{World, load_config}
use claim_ci.Config.{missing_or_invalid_fields}
use claim_ci.Config.Rules.{check_configs, compute_mismatch, evaluation_differs}
use claim_ci.Config.Gates.{check_configs-gates}
use claim_ci.Dataset.{load_dataset, check_dataset_leakage, check_evaluation_alignment}
use claim_ci.Dataset.Leakage.{IsApart, check_dataset_leakage-IsApart}
use claim_ci.Dataset.Alignment.{SameRecords, check_evaluation_alignment-SameRecords}
use claim_ci.Results.{LoadedResults, load_results}
use claim_ci.Results.Check.{ResultCheck, check_results}
use claim_ci.Results.Compare.{absolute}
use claim_ci.Results.Claim.{Compared, metric_summary_comparison-Compared}
use claim_ci.Results.Independence.{IsSeeded, seed_findings-IsSeeded}
use claim_ci.Results.Gates.{Checked, check_results-Checked}
use claim_ci.Audit.Paths.{ExperimentPaths}
use claim_ci.Audit.Spec.{ResearchSpec}
use claim_ci.Audit.Research.{
  Category, with_both, config_loaded, config_findings, result_findings, compared_results,
  comparison_findings, split_findings, dataset_findings,
}
use claim_ci.Audit.Clear.{IsClear, or_none, IsClear-append, IsClear-pair}

-- Two configs that lack nothing and pass both rules that gate.
pub record AreFair (w : World) (spec : ResearchSpec) : Type 0 where
  pub baseline : Fields
  pub candidate : Fields
  pub baseline_eq : load_config w spec.baseline.config ≡ ok baseline
  pub candidate_eq : load_config w spec.candidate.config ≡ ok candidate
  pub complete : is_empty (missing_or_invalid_fields w.floats baseline) ≡ true
  pub candidate_complete : is_empty (missing_or_invalid_fields w.floats candidate) ≡ true
  pub same_compute : compute_mismatch w.floats baseline candidate ≡ false
  pub same_evaluation : evaluation_differs w.floats baseline candidate ≡ false

not-false : {a : Bool} → not a ≡ false → a ≡ true
not-false {a = true} h = refl
not-false {a = false} h = cc

-- Config findings that gate nothing.
pub IsClear-config_findings :
    (w : World) (spec : ResearchSpec) (fs : List Finding)
    → config_findings w spec ≡ ok fs
    → IsClear fs
    → AreFair w spec
unfolding config_findings
IsClear-config_findings w spec fs made h =
    let (b, c, b_eq, c_eq, clear) =
      IsClear-pair w Category.config_artifact "baseline" "candidate" spec.baseline.config
        spec.candidate.config (load_config w spec.baseline.config)
        (load_config w spec.candidate.config)
        (with_both [] (λ x y. config_loaded spec ∷ check_configs w.floats x y)) made h in
    let (gate, weak) = check_configs-gates w.floats b c in
    let (compute, evaluation) = or_none (sym gate ∙ clear.0) in
    let (lacks_b, lacks_c) = or_none (sym weak ∙ clear.1) in
    record {
      baseline = b;
      candidate = c;
      baseline_eq = b_eq;
      candidate_eq = c_eq;
      complete = not-false lacks_b;
      candidate_complete = not-false lacks_c;
      same_compute = compute;
      same_evaluation = evaluation;
    }

-- Results with seeds in order, claimed summaries that agree, and an improvement that meets the
-- threshold.
pub record MeetsClaim (w : World) (spec : ResearchSpec) : Type 0 where
  pub baseline : LoadedResults
  pub candidate : LoadedResults
  pub baseline_eq : load_results w spec.baseline.results spec.metric ≡ ok baseline
  pub candidate_eq : load_results w spec.candidate.results spec.metric ≡ ok candidate
  pub baseline_seeded : IsSeeded baseline
  pub candidate_seeded : IsSeeded candidate
  pub checked : ResultCheck
  pub checked_eq :
      check_results w.floats baseline candidate spec.minimum_improvement
        (DirectionValue.direction spec.direction)
      ≡ ok checked
  pub details :
      Checked w.floats baseline candidate spec.minimum_improvement
        (DirectionValue.direction spec.direction)
        checked
  pub baseline_agrees : details.baseline_agrees ≡ true
  pub candidate_agrees : details.candidate_agrees ≡ true
  pub comparison :
      Compared w.floats checked.baseline_summary checked.candidate_summary spec.minimum_improvement
        (DirectionValue.direction spec.direction)
        details.compared
  pub met :
      le_decimal comparison.threshold
        (absolute comparison.towards comparison.before comparison.after)
      ≡ true

claim_met :
    (w : World) (spec : ResearchSpec) (b c : LoadedResults) (r : ResultCheck)
    → load_results w spec.baseline.results spec.metric ≡ ok b
    → load_results w spec.candidate.results spec.metric ≡ ok c
    → check_results w.floats b c spec.minimum_improvement (DirectionValue.direction spec.direction)
      ≡ ok r
    → IsClear r.findings
    → MeetsClaim w spec
claim_met w spec b c r b_eq c_eq r_eq (valid, enough) =
    let details = check_results-Checked w.floats b c _ _ r r_eq in
    let (b_agrees, h1) = or_none (sym details.invalidates ∙ valid) in
    let (c_agrees, h2) = or_none h1 in
    let (b_seeds, c_seeds) = or_none (sym details.insufficient ∙ enough) in
    let comparison =
      metric_summary_comparison-Compared w.floats _ _ _ _ details.compared details.compared_eq in
    record {
      baseline = b;
      candidate = c;
      baseline_eq = b_eq;
      candidate_eq = c_eq;
      baseline_seeded = (seed_findings-IsSeeded "baseline" b).0 (not-false b_seeds);
      candidate_seeded = (seed_findings-IsSeeded "candidate" c).0 (not-false c_seeds);
      checked = r;
      checked_eq = r_eq;
      details = details;
      baseline_agrees = not-false b_agrees;
      candidate_agrees = not-false c_agrees;
      comparison = comparison;
      met = not-false (sym comparison.invalidates ∙ h2);
    }

compared-IsClear :
    (w : World) (spec : ResearchSpec) (m : Result ResultCheck)
    → IsClear (comparison_findings spec (some m))
    → (r : ResultCheck) × (m ≡ ok r) × IsClear r.findings
compared-IsClear w spec (ok r) h = (r, refl, h)
compared-IsClear w spec (err e) (h, k) = cc

-- Result findings that gate nothing.
pub IsClear-result_findings :
    (w : World) (spec : ResearchSpec) (fs : List Finding)
    → result_findings w spec ≡ ok fs
    → IsClear fs
    → MeetsClaim w spec
unfolding result_findings compared_results
IsClear-result_findings w spec fs made h =
    let (b, c, b_eq, c_eq, clear) =
      IsClear-pair w Category.result_artifact "baseline" "candidate" spec.baseline.results
        spec.candidate.results (load_results w spec.baseline.results spec.metric)
        (load_results w spec.candidate.results spec.metric)
        (λ m n. comparison_findings spec (compared_results w spec m n)) made h in
    let (r, r_eq, clear_r) =
      compared-IsClear w spec
        (check_results w.floats b c spec.minimum_improvement
          (DirectionValue.direction spec.direction))
        clear in
    claim_met w spec b c r b_eq c_eq r_eq clear_r

-- An experiment whose evaluation split shares no record with its training split.
pub record IsUnleaked (w : World) (paths : ExperimentPaths) : Type 0 where
  pub train : DatasetHashes
  pub eval : DatasetHashes
  pub train_eq : load_dataset w paths.train_dataset ≡ ok train
  pub eval_eq : load_dataset w paths.eval_dataset ≡ ok eval
  pub apart : IsApart train.hashes eval.hashes

pub IsClear-split_findings :
    (w : World) (experiment : String) (paths : ExperimentPaths) (fs : List Finding)
    → split_findings w experiment paths ≡ ok fs
    → IsClear fs
    → IsUnleaked w paths
unfolding split_findings
IsClear-split_findings w experiment paths fs made h =
    let (train, eval, train_eq, eval_eq, clear) =
      IsClear-pair w Category.dataset_artifact experiment experiment paths.train_dataset
        paths.eval_dataset (load_dataset w paths.train_dataset) (load_dataset w paths.eval_dataset)
        (with_both [] (λ x y. (check_dataset_leakage experiment x y).1)) made h in
    record {
      train = train;
      eval = eval;
      train_eq = train_eq;
      eval_eq = eval_eq;
      apart = (check_dataset_leakage-IsApart experiment train eval).0.0 clear.0;
    }

-- Four datasets that load, without leakage, and with the same evaluation records.
pub record AreAligned (w : World) (spec : ResearchSpec) : Type 0 where
  pub baseline : IsUnleaked w spec.baseline
  pub candidate : IsUnleaked w spec.candidate
  pub same_records : SameRecords baseline.eval.hashes candidate.eval.hashes

IsClear-both {ℓ} :
    {A : Type ℓ} (f : A → A → List Finding) {m n : Result A} {a b : A}
    → m ≡ ok a
    → n ≡ ok b
    → IsClear (with_both [] f m n)
    → IsClear (f a b)
IsClear-both f {n = n} {a} a_eq b_eq h =
    subst (λ n. IsClear (with_both [] f (ok a) n)) b_eq
      (subst (λ m. IsClear (with_both [] f m n)) a_eq h)

-- Dataset findings that gate nothing.
pub IsClear-dataset_findings :
    (w : World) (spec : ResearchSpec) (fs : List Finding)
    → dataset_findings w spec ≡ ok fs
    → IsClear fs
    → AreAligned w spec
unfolding dataset_findings
IsClear-dataset_findings w spec fs made h =
    let both =
      with_both [] check_evaluation_alignment (load_dataset w spec.baseline.eval_dataset)
        (load_dataset w spec.candidate.eval_dataset) in
    let (first, first_eq, made1) = >>=-eq-ok (split_findings w "baseline" spec.baseline) _ made in
    let (second, second_eq, made2) =
      >>=-eq-ok (split_findings w "candidate" spec.candidate) _ made1 in
    let (h1, h2) =
      IsClear-append first (second ++ both) (subst IsClear (sym (ok-injective made2)) h) in
    let (h3, h4) = IsClear-append second both h2 in
    let b = IsClear-split_findings w "baseline" spec.baseline first first_eq h1 in
    let c = IsClear-split_findings w "candidate" spec.candidate second second_eq h3 in
    let clear = IsClear-both check_evaluation_alignment b.eval_eq c.eval_eq h4 in
    record {
      baseline = b;
      candidate = c;
      same_records = (check_evaluation_alignment-SameRecords b.eval c.eval).0.0 clear.0;
    }
