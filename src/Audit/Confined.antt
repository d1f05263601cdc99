-- ===== src/Audit/Confined.antt =====
-- Manifests under an artifact root, and the paths that they name.
use claim_ci.Prelude.{
  ◌≡◌, refl, sym, ap, subst, Bool, true, false, not, Option, none, some, String, str_eq, strip,
}
use claim_ci.Value.{Value, Fields, null, bool, int, float, str, list, mapping, opaque, get}
use claim_ci.Models.{
  ClaimError, ok, bad_path, outside_root, wrong_shape, >>=-eq-ok, ok-injective, require, or_raise,
  or_raise-eq-ok,
}
use claim_ci.World.{World, as_mapping}
use claim_ci.Audit.Paths.{
  Paths, ExperimentPaths, is_portable, is_inside, placed, artifact_path, experiment_paths,
}
use claim_ci.Audit.Spec.{
  ResearchSpec, load_research_spec, resolved_root, read_manifest, read_claim, read_experiments,
}

-- The resolved path of a portable name, inside the root.
pub record IsConfined (w : World) (ps : Paths) (root directory path : String) : Type 0 where
  pub raw : String
  pub portable : is_portable ps (some root) raw ≡ true
  pub resolved : w.resolve (placed ps directory raw) ≡ some path
  pub within : ps.is_within path root ≡ true

pub record AreConfined (w : World) (ps : Paths) (root directory : String) (paths : ExperimentPaths)
    : Type 0 where
  pub config : IsConfined w ps root directory paths.config
  pub results : IsConfined w ps root directory paths.results
  pub train_dataset : IsConfined w ps root directory paths.train_dataset
  pub eval_dataset : IsConfined w ps root directory paths.eval_dataset

required : (b : Bool) (e : ClaimError) → require b e ≡ ok tt → b ≡ true
required true e h = refl
required false e h = cc

text-IsConfined :
    (w : World) (ps : Paths) (root directory raw path : String)
    → artifact_path w ps (some root) directory (some (str raw)) ≡ ok path
    → IsConfined w ps root directory path
unfolding artifact_path is_inside
text-IsConfined w ps root directory raw path h =
    let (_, _, h1) = >>=-eq-ok (require (not (str_eq (strip raw) "")) bad_path) _ h in
    let (_, portable, h2) =
      >>=-eq-ok (require (is_portable ps (some root) raw) outside_root) _ h1 in
    let (found, resolved, h3) =
      >>=-eq-ok (or_raise (w.resolve (placed ps directory raw)) bad_path) _ h2 in
    let (_, within, h4) = >>=-eq-ok (require (ps.is_within found root) outside_root) _ h3 in
    subst (IsConfined w ps root directory) (ok-injective h4) (record {
      raw = raw;
      portable = required _ _ portable;
      resolved = or_raise-eq-ok _ bad_path resolved;
      within = required _ _ within;
    })

artifact_path-IsConfined :
    (w : World) (ps : Paths) (root directory : String) (v : Option Value) {path : String}
    → artifact_path w ps (some root) directory v ≡ ok path
    → IsConfined w ps root directory path
unfolding artifact_path
artifact_path-IsConfined w ps root directory (some (str raw)) {path} h =
    text-IsConfined w ps root directory raw path h
artifact_path-IsConfined w ps root directory none h = cc
artifact_path-IsConfined w ps root directory (some null) h = cc
artifact_path-IsConfined w ps root directory (some (bool b)) h = cc
artifact_path-IsConfined w ps root directory (some (int n)) h = cc
artifact_path-IsConfined w ps root directory (some (float x)) h = cc
artifact_path-IsConfined w ps root directory (some (list xs)) h = cc
artifact_path-IsConfined w ps root directory (some (mapping f)) h = cc
artifact_path-IsConfined w ps root directory (some (opaque n)) h = cc

experiment_paths-AreConfined :
    (w : World) (ps : Paths) (root directory : String) (v : Value) (paths : ExperimentPaths)
    → experiment_paths w ps (some root) directory v ≡ ok paths
    → AreConfined w ps root directory paths
unfolding experiment_paths
experiment_paths-AreConfined w ps root directory v paths h =
    let (fields, _, h1) = >>=-eq-ok (as_mapping v) _ h in
    let (config, config_eq, h2) =
      >>=-eq-ok (artifact_path w ps (some root) directory (get "config" fields)) _ h1 in
    let (results, results_eq, h3) =
      >>=-eq-ok (artifact_path w ps (some root) directory (get "results" fields)) _ h2 in
    let (train, train_eq, h4) =
      >>=-eq-ok (artifact_path w ps (some root) directory (get "train_dataset" fields)) _ h3 in
    let (eval, eval_eq, h5) =
      >>=-eq-ok (artifact_path w ps (some root) directory (get "eval_dataset" fields)) _ h4 in
    subst (AreConfined w ps root directory) (ok-injective h5) (record {
      config = artifact_path-IsConfined w ps root directory _ config_eq;
      results = artifact_path-IsConfined w ps root directory _ results_eq;
      train_dataset = artifact_path-IsConfined w ps root directory _ train_eq;
      eval_dataset = artifact_path-IsConfined w ps root directory _ eval_eq;
    })

-- A spec whose files are under the resolved root.
pub record Contained (w : World) (ps : Paths) (root : String) (spec : ResearchSpec) : Type 0 where
  pub resolved : String
  pub resolved_eq : w.resolve root ≡ some resolved
  pub manifest : ps.is_within spec.manifest_path resolved ≡ true
  pub baseline : AreConfined w ps resolved (ps.parent spec.manifest_path) spec.baseline
  pub candidate : AreConfined w ps resolved (ps.parent spec.manifest_path) spec.candidate

root-within :
    (w : World) (ps : Paths) (root manifest : String) (o : Option String)
    → resolved_root w ps (some root) manifest ≡ ok o
    → (r : String) × (o ≡ some r) × (w.resolve root ≡ some r) × (ps.is_within manifest r ≡ true)
unfolding resolved_root
root-within w ps root manifest o h =
    let (r, found, h1) = >>=-eq-ok (or_raise (w.resolve root) outside_root) _ h in
    let (_, within, h2) = >>=-eq-ok (require (ps.is_within manifest r) outside_root) _ h1 in
    (r, sym (ok-injective h2), or_raise-eq-ok _ outside_root found, required _ _ within)

experiments-AreConfined :
    (w : World) (ps : Paths) (root directory : String) (payload : Fields) (b c : ExperimentPaths)
    → read_experiments w ps (some root) directory payload ≡ ok (b, c)
    → AreConfined w ps root directory b × AreConfined w ps root directory c
unfolding read_experiments
experiments-AreConfined w ps root directory payload b c h =
    let (bv, _, h1) = >>=-eq-ok (or_raise (get "baseline" payload) wrong_shape) _ h in
    let (cv, _, h2) = >>=-eq-ok (or_raise (get "candidate" payload) wrong_shape) _ h1 in
    let (x, x_eq, h3) = >>=-eq-ok (experiment_paths w ps (some root) directory bv) _ h2 in
    let (y, y_eq, h4) = >>=-eq-ok (experiment_paths w ps (some root) directory cv) _ h3 in
    let same = ok-injective h4 in
    (
      subst (AreConfined w ps root directory) (ap (λ p. p.0) same)
          (experiment_paths-AreConfined w ps root directory bv x x_eq),
      subst (AreConfined w ps root directory) (ap (λ p. p.1) same)
          (experiment_paths-AreConfined w ps root directory cv y y_eq),
    )

-- With an artifact root, a spec that `load_research_spec` returns has its manifest and all eight
-- artifacts inside the resolved root; each artifact's name is relative, without a part that goes
-- up, and it is the resolved path, links followed, that is inside.
pub load_research_spec-Contained :
    (w : World) (ps : Paths) (root path : String) (spec : ResearchSpec)
    → load_research_spec w ps (some root) path ≡ ok spec
    → Contained w ps root spec
unfolding load_research_spec
load_research_spec-Contained w ps root path spec h =
    let (manifest, _, h1) = >>=-eq-ok (or_raise (w.resolve path) bad_path) _ h in
    let (o, root_eq, h2) = >>=-eq-ok (resolved_root w ps (some root) manifest) _ h1 in
    let (payload, _, h3) = >>=-eq-ok (read_manifest w manifest) _ h2 in
    let (claim, _, h4) = >>=-eq-ok (read_claim w payload) _ h3 in
    let ((b, c), read, h5) =
      >>=-eq-ok (read_experiments w ps o (ps.parent manifest) payload) _ h4 in
    let (r, o_eq, resolved_eq, within) = root-within w ps root manifest o root_eq in
    let inside =
      experiments-AreConfined w ps r (ps.parent manifest) payload b c
        (subst (λ o. read_experiments w ps o (ps.parent manifest) payload ≡ ok (b, c)) o_eq read) in
    subst (Contained w ps root) (ok-injective h5) (record {
      resolved = r;
      resolved_eq = resolved_eq;
      manifest = within;
      baseline = inside.0;
      candidate = inside.1;
    })
