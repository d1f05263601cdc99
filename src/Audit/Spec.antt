-- ===== src/Audit/Spec.antt =====
-- `load_research_spec`: the claim and the artifacts of a research manifest.
use claim_ci.Prelude.{not, Option, none, some, String, str_eq, strip}
use claim_ci.Floats.{Floats}
use claim_ci.Value.{Float, Value, Fields, int, float, str, get}
use claim_ci.Models.{
  Result, ok, err, unreadable, wrong_shape, missing_metric, bad_threshold, bad_path, outside_root,
  ◌>>=◌, ◌>>◌, require, or_raise, DirectionValue, coerce_direction,
}
use claim_ci.Models.Enums.{Direction}
use claim_ci.World.{World, as_mapping, load_unique_yaml}
use claim_ci.Results.{if_finite}
use claim_ci.Results.Compare.{is_threshold}
use claim_ci.Audit.Paths.{Paths, ExperimentPaths, experiment_paths}

pub record ResearchSpec : Type 0 where
  pub manifest_path : String
  pub metric : String
  pub minimum_improvement : Float
  pub baseline : ExperimentPaths
  pub candidate : ExperimentPaths
  pub direction : Direction

-- `_number`
unfoldable pub number : Floats → Option Value → Option Float
number fl (some (int n)) = if_finite (fl.of_int n)
number fl (some (float x)) = if_finite (some x)
number fl _ = none

-- `claim["metric"]`, stripped; it must hold more than blanks
unfoldable pub metric_of : Option Value → Result String
metric_of (some (str s)) =
    require (not (str_eq (strip s) "")) missing_metric >>= λ checked. ok (strip s)
metric_of _ = err missing_metric

-- A finite number that is not negative.
unfoldable pub threshold_of : Floats → Option Value → Result Float
unfolding number
threshold_of fl v = do
  x ← or_raise (number fl v) bad_threshold
  require (is_threshold x) bad_threshold
  ok x

-- `claim.get("direction", Direction.HIGHER)`
abbrev pub declared_direction : Option Value → DirectionValue
declared_direction none = DirectionValue.direction Direction.higher
declared_direction (some v) = DirectionValue.scalar v

-- `Path(artifact_root).resolve()`, which must hold the manifest; no root confines nothing
unfoldable pub resolved_root : World → Paths → Option String → String → Result (Option String)
resolved_root w ps none manifest = ok none
resolved_root w ps (some root) manifest = do
  resolved ← or_raise (w.resolve root) outside_root
  require (ps.is_within manifest resolved) outside_root
  ok (some resolved)

pub record Claim : Type 0 where
  pub metric : String
  pub minimum_improvement : Float
  pub direction : Direction

-- `payload["claim"]`
unfoldable pub read_claim : World → Fields → Result Claim
unfolding metric_of threshold_of
read_claim w payload = do
  claim_value ← or_raise (get "claim" payload) wrong_shape
  claim ← as_mapping claim_value
  metric ← metric_of (get "metric" claim)
  threshold ← threshold_of w.floats (get "minimum_improvement" claim)
  towards ← coerce_direction (declared_direction (get "direction" claim))
  ok (record { metric = metric; minimum_improvement = threshold; direction = towards })

-- `payload["baseline"]` and `payload["candidate"]`: both must be there before either is read
unfoldable pub read_experiments :
    World → Paths → Option String → String → Fields → Result (ExperimentPaths × ExperimentPaths)
read_experiments w ps root directory payload = do
  baseline_value ← or_raise (get "baseline" payload) wrong_shape
  candidate_value ← or_raise (get "candidate" payload) wrong_shape
  baseline ← experiment_paths w ps root directory baseline_value
  candidate ← experiment_paths w ps root directory candidate_value
  ok (baseline, candidate)

-- The manifest's file, as a mapping.
unfoldable pub read_manifest : World → String → Result Fields
read_manifest w manifest = do
  text ← or_raise (w.read_text manifest) unreadable
  parsed ← load_unique_yaml w text
  as_mapping parsed

unfoldable pub load_research_spec : World → Paths → Option String → String → Result ResearchSpec
unfolding resolved_root read_claim read_experiments read_manifest
load_research_spec w ps artifact_root path = do
  manifest ← or_raise (w.resolve path) bad_path
  root ← resolved_root w ps artifact_root manifest
  payload ← read_manifest w manifest
  claim ← read_claim w payload
  experiments ← read_experiments w ps root (ps.parent manifest) payload
  ok (record {
    manifest_path = manifest;
    metric = claim.metric;
    minimum_improvement = claim.minimum_improvement;
    baseline = experiments.0;
    candidate = experiments.1;
    direction = claim.direction;
  })
