-- ===== src/Audit/Supported.antt =====
-- `audit_research`: what the verdict SUPPORTED takes, end to end.
use claim_ci.Prelude.{
  ◌≡◌, ◌↔◌, refl, sym, ◌∙◌, ap, subst, any-append, Option, none, some, List, [], ◌∷◌, ◌++◌, String,
  str_eq, arith,
}
use claim_ci.Models.{Result, ok, bad_identity, require, >>=-eq-ok, ok-injective, Finding}
use claim_ci.Models.Enums.{Verdict, is_invalidates, is_insufficient}
use claim_ci.World.{World, load_config}
use claim_ci.Config.Rules.{check_configs}
use claim_ci.Config.Gates.{check_configs-gates}
use claim_ci.Dataset.{load_dataset, check_dataset_leakage, check_evaluation_alignment}
use claim_ci.Dataset.Leakage.{check_dataset_leakage-IsApart}
use claim_ci.Dataset.Alignment.{check_evaluation_alignment-SameRecords}
use claim_ci.Results.{load_results}
use claim_ci.Results.Independence.{seed_findings-IsSeeded}
use claim_ci.Audit.Paths.{Paths, ExperimentPaths}
use claim_ci.Audit.Spec.{ResearchSpec, load_research_spec}
use claim_ci.Audit.Research.{
  Category, pair_findings, with_both, config_loaded, config_findings, result_findings,
  compared_results, comparison_findings, split_findings, dataset_findings, artifact_findings,
  metric_identity_finding, MetricIdentity, AuditResult, audit_research, determine_verdict,
}
use claim_ci.Audit.Verdict.{determine_verdict-cases}
use claim_ci.Audit.Clear.{IsClear, IsClear-append}
use claim_ci.Audit.Outcome.{
  AreFair, MeetsClaim, IsUnleaked, AreAligned, IsClear-config_findings, IsClear-result_findings,
  IsClear-dataset_findings,
}

join-IsClear : (fs gs : List Finding) → IsClear fs → IsClear gs → IsClear (fs ++ gs)
join-IsClear fs gs h k =
    rw
      (
        any-append (λ f. is_invalidates f.impact) fs gs,
        any-append (λ f. is_insufficient f.impact) fs gs,
      )
      (ground (arith, h.0, h.1, k.0, k.1))

-- Two loaders that return leave what is done with their results.
pair-IsClear {ℓ} :
    {A : Type ℓ} (w : World) (category : Category) (d e p q : String) (m n : Result A)
    (rest : Result A → Result A → List Finding) (a b : A) {fs : List Finding}
    → m ≡ ok a
    → n ≡ ok b
    → IsClear (rest (ok a) (ok b))
    → pair_findings w category d e p q m n rest ≡ ok fs
    → IsClear fs
pair-IsClear w category d e p q m n rest a b {fs} h k clear made =
    unfold pair_findings in
    let returned : ok (rest (ok a) (ok b)) ≡ ok fs =
      subst (λ m. pair_findings w category d e p q m (ok b) rest ≡ ok fs) h
        (subst (λ n. pair_findings w category d e p q m n rest ≡ ok fs) k made) in
    subst IsClear (ok-injective returned) clear

AreFair-IsClear :
    (w : World) (spec : ResearchSpec) (fs : List Finding)
    → config_findings w spec ≡ ok fs
    → AreFair w spec
    → IsClear fs
unfolding config_findings
AreFair-IsClear w spec fs made fair =
    let (gate, weak) = check_configs-gates w.floats fair.baseline fair.candidate in
    pair-IsClear w Category.config_artifact "baseline" "candidate" spec.baseline.config
      spec.candidate.config (load_config w spec.baseline.config)
      (load_config w spec.candidate.config)
      (with_both [] (λ x y. config_loaded spec ∷ check_configs w.floats x y)) fair.baseline
      fair.candidate fair.baseline_eq fair.candidate_eq
      (
        gate ∙ rw (fair.same_compute, fair.same_evaluation) refl,
        weak ∙ rw (fair.complete, fair.candidate_complete) refl,
      )
      made

MeetsClaim-IsClear :
    (w : World) (spec : ResearchSpec) (fs : List Finding)
    → result_findings w spec ≡ ok fs
    → MeetsClaim w spec
    → IsClear fs
unfolding result_findings compared_results
MeetsClaim-IsClear w spec fs made meets =
    let details = meets.details in
    pair-IsClear w Category.result_artifact "baseline" "candidate" spec.baseline.results
      spec.candidate.results (load_results w spec.baseline.results spec.metric)
      (load_results w spec.candidate.results spec.metric)
      (λ m n. comparison_findings spec (compared_results w spec m n)) meets.baseline meets.candidate
      meets.baseline_eq meets.candidate_eq
      (subst (λ m. IsClear (comparison_findings spec (some m))) (sym meets.checked_eq)
        (
          details.invalidates
              ∙ rw
                  (
                    meets.baseline_agrees, meets.candidate_agrees, meets.comparison.invalidates,
                    meets.met,
                  )
                  refl,
          details.insufficient
              ∙ rw
                  (
                    (seed_findings-IsSeeded "baseline" meets.baseline).1 meets.baseline_seeded,
                    (seed_findings-IsSeeded "candidate" meets.candidate).1 meets.candidate_seeded,
                  )
                  refl,
        ))
      made

IsUnleaked-IsClear :
    (w : World) (experiment : String) (paths : ExperimentPaths) (fs : List Finding)
    → split_findings w experiment paths ≡ ok fs
    → IsUnleaked w paths
    → IsClear fs
unfolding split_findings
IsUnleaked-IsClear w experiment paths fs made h =
    let gates = check_dataset_leakage-IsApart experiment h.train h.eval in
    pair-IsClear w Category.dataset_artifact experiment experiment paths.train_dataset
      paths.eval_dataset (load_dataset w paths.train_dataset) (load_dataset w paths.eval_dataset)
      (with_both [] (λ x y. (check_dataset_leakage experiment x y).1)) h.train h.eval h.train_eq
      h.eval_eq (gates.0.1 h.apart, gates.1) made

both-IsClear {ℓ} :
    {A : Type ℓ} (f : A → A → List Finding) {m n : Result A} {a b : A}
    → m ≡ ok a
    → n ≡ ok b
    → IsClear (f a b)
    → IsClear (with_both [] f m n)
both-IsClear f {n = n} {a} a_eq b_eq h =
    subst (λ m. IsClear (with_both [] f m n)) (sym a_eq)
      (subst (λ n. IsClear (with_both [] f (ok a) n)) (sym b_eq) h)

AreAligned-IsClear :
    (w : World) (spec : ResearchSpec) (fs : List Finding)
    → dataset_findings w spec ≡ ok fs
    → AreAligned w spec
    → IsClear fs
unfolding dataset_findings
AreAligned-IsClear w spec fs made h =
    let gates = check_evaluation_alignment-SameRecords h.baseline.eval h.candidate.eval in
    let (first, first_eq, made1) = >>=-eq-ok (split_findings w "baseline" spec.baseline) _ made in
    let (second, second_eq, made2) =
      >>=-eq-ok (split_findings w "candidate" spec.candidate) _ made1 in
    subst IsClear (ok-injective made2) (
      join-IsClear first _ (IsUnleaked-IsClear w "baseline" spec.baseline first first_eq h.baseline)
        (join-IsClear second _
          (IsUnleaked-IsClear w "candidate" spec.candidate second second_eq h.candidate)
          (both-IsClear check_evaluation_alignment h.baseline.eval_eq h.candidate.eval_eq
            (gates.0.1 h.same_records, gates.1))))

identity-IsClear :
    (context : Option MetricIdentity) (metric : String) (fs : List Finding)
    → metric_identity_finding context metric ≡ ok fs
    → IsClear fs
unfolding metric_identity_finding
identity-IsClear none metric fs h = subst IsClear (ok-injective h) (refl, refl)
identity-IsClear (some context) metric fs h =
    let (_, _, h1) =
      >>=-eq-ok (require (str_eq context.canonical_metric metric) bad_identity) _ h in
    subst IsClear (ok-injective h1) (refl, refl)

-- Everything that the audit asks of an experiment pair.
pub record Supported (w : World) (spec : ResearchSpec) : Type 0 where
  pub configs : AreFair w spec
  pub results : MeetsClaim w spec
  pub datasets : AreAligned w spec

artifacts-Supported :
    (w : World) (spec : ResearchSpec) (fs : List Finding)
    → artifact_findings w spec ≡ ok fs
    → IsClear fs ↔ Supported w spec
unfolding artifact_findings
artifacts-Supported w spec fs made =
    let (configs, configs_eq, made1) = >>=-eq-ok (config_findings w spec) _ made in
    let (results, results_eq, made2) = >>=-eq-ok (result_findings w spec) _ made1 in
    let (datasets, datasets_eq, made3) = >>=-eq-ok (dataset_findings w spec) _ made2 in
    let whole : configs ++ (results ++ datasets) ≡ fs = ok-injective made3 in
    (
      λ h.
          let (clear, h1) =
            IsClear-append configs (results ++ datasets) (subst IsClear (sym whole) h) in
          let (clear_results, clear_datasets) = IsClear-append results datasets h1 in
          record {
            configs = IsClear-config_findings w spec configs configs_eq clear;
            results = IsClear-result_findings w spec results results_eq clear_results;
            datasets = IsClear-dataset_findings w spec datasets datasets_eq clear_datasets;
          },
      λ s. subst IsClear whole (
          join-IsClear configs _ (AreFair-IsClear w spec configs configs_eq s.configs) (
            join-IsClear results _ (MeetsClaim-IsClear w spec results results_eq s.results)
              (AreAligned-IsClear w spec datasets datasets_eq s.datasets))),
    )

-- An audit that returns has loaded its spec and bound its metric.
audited :
    (w : World) (ps : Paths) (root : Option String) (context : Option MetricIdentity)
    (path : String) (r : AuditResult)
    → audit_research w ps root context path ≡ ok r
    → (spec : ResearchSpec) × (load_research_spec w ps root path ≡ ok spec)
      × (artifacts : List Finding) × (artifact_findings w spec ≡ ok artifacts)
      × (fs : List Finding) × IsClear fs
      × (r.verdict ≡ determine_verdict (artifacts ++ fs))
unfolding audit_research
audited w ps root context path r h =
    let (spec, spec_eq, h1) = >>=-eq-ok (load_research_spec w ps root path) _ h in
    let (artifacts, artifacts_eq, h2) = >>=-eq-ok (artifact_findings w spec) _ h1 in
    let (fs, fs_eq, h3) = >>=-eq-ok (metric_identity_finding context spec.metric) _ h2 in
    (
      spec,
      spec_eq,
      artifacts,
      artifacts_eq,
      fs,
      identity-IsClear context spec.metric fs fs_eq,
      ap (λ (r : AuditResult). r.verdict) (sym (ok-injective h3)),
    )

-- An audit that returns has loaded a spec, and its verdict is SUPPORTED exactly when: both configs
-- load, lack nothing, and pass the compute and the evaluation rule; both results load, with a seed
-- for each of several runs and no seed twice, with claimed summaries that are the recomputed
-- means, and with an improvement that the threshold does not exceed; and all four datasets load,
-- no training split shares a record with its evaluation split, and both evaluation splits hold
-- the same records equally often.
pub audit_research-Supported :
    (w : World) (ps : Paths) (root : Option String) (context : Option MetricIdentity)
    (path : String) (r : AuditResult)
    → audit_research w ps root context path ≡ ok r
    → (spec : ResearchSpec) × (load_research_spec w ps root path ≡ ok spec)
      × ((r.verdict ≡ Verdict.supported) ↔ Supported w spec)
audit_research-Supported w ps root context path r h =
    let (spec, spec_eq, artifacts, artifacts_eq, fs, clear, verdict) =
      audited w ps root context path r h in
    let (there, back) = (determine_verdict-cases (artifacts ++ fs)).2 in
    let (found, made) = artifacts-Supported w spec artifacts artifacts_eq in
    (
      spec,
      spec_eq,
      (
        λ v. found (IsClear-append artifacts fs (there (sym verdict ∙ v))).0,
        λ s. verdict ∙ back (join-IsClear artifacts fs (made s) clear),
      ),
    )
