-- ===== src/Audit/Returning.antt =====
-- `audit_research`: when it returns.
use claim_ci.Prelude.{
  ◌≡◌, ◌↔◌, refl, sym, ◌∙◌, subst, true, false, is_some, Option, none, some, List, [], ◌∷◌, String,
  arith,
}
use claim_ci.Models.{
  Result, ok, err, uncaught, is_uncaught, is_caught, ◌>>=◌, or_raise, ok-injective, Finding,
}
use claim_ci.Models.Enums.{Verdict}
use claim_ci.World.{World, is_escaped, load_config}
use claim_ci.Config.Rules.{check_configs}
use claim_ci.Dataset.{load_dataset, check_dataset_leakage}
use claim_ci.Results.{load_results}
use claim_ci.Audit.Paths.{Paths, ExperimentPaths}
use claim_ci.Audit.Spec.{ResearchSpec, load_research_spec}
use claim_ci.Audit.Research.{
  Category, artifact_failure, failed, with_both, config_loaded, compared_results,
  comparison_findings, pair_findings, config_findings, result_findings, split_findings,
  dataset_findings, artifact_findings, metric_identity_finding, AuditResult, audit_research,
}
use claim_ci.Results.Caught.{load_results-caught}
use claim_ci.Audit.Caught.{load_config-caught, load_dataset-caught}
use claim_ci.Audit.Supported.{Supported, audit_research-Supported}

-- What the file system and PyYAML do with the artifacts of one experiment: `yaml.load` of its config
-- raises nothing that `load_config` does not catch, `exists` answers, and its datasets' paths resolve.
pub record Answers (w : World) (paths : ExperimentPaths) : Type 0 where
  pub yaml :
      (text : String) → w.read_text paths.config ≡ some text → is_escaped (w.read_yaml text) ≡ false
  pub config_exists : is_some (w.exists paths.config) ≡ true
  pub results_exists : is_some (w.exists paths.results) ≡ true
  pub train_exists : is_some (w.exists paths.train_dataset) ≡ true
  pub eval_exists : is_some (w.exists paths.eval_dataset) ≡ true
  pub train_resolves : is_some (w.resolve paths.train_dataset) ≡ true
  pub eval_resolves : is_some (w.resolve paths.eval_dataset) ≡ true

abbrev Returns {ℓ} : {A : Type ℓ} → Result A → Type ℓ
Returns {A = A} m = (a : A) × (m ≡ ok a)

bind-Returns {ℓ κ} :
    {A : Type ℓ} {B : Type κ} (first : Result A) (next : A → Result B)
    → Returns first
    → ((found : A) → Returns (next found))
    → Returns (first >>= next)
bind-Returns first next (found, found_eq) h =
    let (made, made_eq) = h found in
    (made, subst (λ first. (first >>= next) ≡ ok made) (sym found_eq) made_eq)

found-Returns {ℓ} : {A : Type ℓ} (o : Option A) → is_some o ≡ true → Returns (or_raise o uncaught)
found-Returns (some a) h = (a, refl)
found-Returns none h = cc

failed-Returns {ℓ} :
    {A : Type ℓ} (w : World) (category : Category) (experiment path : String) (m : Result A)
    → is_caught m ≡ true
    → is_some (w.exists path) ≡ true
    → Returns (failed w category experiment path m)
unfolding failed artifact_failure
failed-Returns w category experiment path (ok a) h k = ([], refl)
failed-Returns w category experiment path (err e) h k =
    let caught : is_uncaught e ≡ false = ground (arith, h) in
    rw caught (
      bind-Returns (artifact_failure w category experiment path) _
        (bind-Returns (or_raise (w.exists path) uncaught) _ (found-Returns (w.exists path) k)
          λ present. (_, refl))
        λ f. (_, refl))

pair-Returns {ℓ} :
    {A : Type ℓ} (w : World) (category : Category) (d e p q : String) (m n : Result A)
    (rest : Result A → Result A → List Finding)
    → is_caught m ≡ true
    → is_caught n ≡ true
    → is_some (w.exists p) ≡ true
    → is_some (w.exists q) ≡ true
    → Returns (pair_findings w category d e p q m n rest)
unfolding pair_findings
pair-Returns w category d e p q m n rest hm hn hp hq =
    bind-Returns (failed w category d p m) _ (failed-Returns w category d p m hm hp) λ first.
      bind-Returns (failed w category e q n) _ (failed-Returns w category e q n hn hq)
        λ second. (_, refl)

split_findings-Returns :
    (w : World) (experiment : String) (paths : ExperimentPaths)
    → Answers w paths
    → Returns (split_findings w experiment paths)
unfolding split_findings
split_findings-Returns w experiment paths a =
    pair-Returns w Category.dataset_artifact experiment experiment paths.train_dataset
      paths.eval_dataset (load_dataset w paths.train_dataset) (load_dataset w paths.eval_dataset)
      (with_both [] (λ x y. (check_dataset_leakage experiment x y).1))
      (load_dataset-caught w paths.train_dataset a.train_resolves)
      (load_dataset-caught w paths.eval_dataset a.eval_resolves) a.train_exists a.eval_exists

artifact_findings-Returns :
    (w : World) (spec : ResearchSpec)
    → Answers w spec.baseline
    → Answers w spec.candidate
    → Returns (artifact_findings w spec)
unfolding artifact_findings config_findings result_findings dataset_findings
artifact_findings-Returns w spec b c =
    bind-Returns (config_findings w spec) _
      (pair-Returns w Category.config_artifact "baseline" "candidate" spec.baseline.config
        spec.candidate.config (load_config w spec.baseline.config)
        (load_config w spec.candidate.config)
        (with_both [] (λ x y. config_loaded spec ∷ check_configs w.floats x y))
        (load_config-caught w spec.baseline.config b.yaml)
        (load_config-caught w spec.candidate.config c.yaml) b.config_exists c.config_exists)
      λ configs.
        bind-Returns (result_findings w spec) _
          (pair-Returns w Category.result_artifact "baseline" "candidate" spec.baseline.results
            spec.candidate.results (load_results w spec.baseline.results spec.metric)
            (load_results w spec.candidate.results spec.metric)
            (λ m n. comparison_findings spec (compared_results w spec m n))
            (load_results-caught w spec.baseline.results spec.metric)
            (load_results-caught w spec.candidate.results spec.metric) b.results_exists
            c.results_exists)
          λ results.
            bind-Returns (dataset_findings w spec) _
              (bind-Returns (split_findings w "baseline" spec.baseline) _
                (split_findings-Returns w "baseline" spec.baseline b)
                λ first.
                  bind-Returns (split_findings w "candidate" spec.candidate) _
                    (split_findings-Returns w "candidate" spec.candidate c) λ second. (_, refl))
              λ datasets. (_, refl)

returned :
    (w : World) (ps : Paths) (root : Option String) (path : String) (spec : ResearchSpec)
    → load_research_spec w ps root path ≡ ok spec
    → Returns (artifact_findings w spec)
    → Returns (audit_research w ps root none path)
unfolding audit_research metric_identity_finding
returned w ps root path spec h (artifacts, k) = rw (h, k) (_, refl)

-- Once the spec loads, an audit without a metric context returns, whatever its artifacts hold: no
-- artifact that is missing or malformed stops it, as long as `yaml.load` of the two configs raises
-- nothing that `load_config` does not catch, `exists` answers for the artifacts, and the paths of the
-- datasets resolve. Its verdict is SUPPORTED exactly when nothing is left to object.
pub audit_research-returns :
    (w : World) (ps : Paths) (root : Option String) (path : String) (spec : ResearchSpec)
    → load_research_spec w ps root path ≡ ok spec
    → Answers w spec.baseline
    → Answers w spec.candidate
    → (r : AuditResult) × (audit_research w ps root none path ≡ ok r)
      × ((r.verdict ≡ Verdict.supported) ↔ Supported w spec)
audit_research-returns w ps root path spec h b c =
    let (r, r_eq) = returned w ps root path spec h (artifact_findings-Returns w spec b c) in
    let (found, found_eq, verdict) = audit_research-Supported w ps root none path r r_eq in
    (
      r,
      r_eq,
      subst (λ s. (r.verdict ≡ Verdict.supported) ↔ Supported w s) (ok-injective (sym found_eq ∙ h))
          verdict,
    )
