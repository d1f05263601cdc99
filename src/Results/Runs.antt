-- ===== src/Results/Runs.antt =====
-- `load_results`: the runs of a results file, their seeds, and a claimed summary.
use claim_ci.Prelude.{Option, none, some, List, [], ◌∷◌, String}
use claim_ci.Prelude.Int.{ℤ}
use claim_ci.Floats.{Floats}
use claim_ci.Value.{Float, Value, Items, Fields, null, int, list, mapping, nil, item, get}
use claim_ci.Models.{
  Result, ok, err, unreadable, malformed, wrong_shape, missing_metric, not_finite, ◌>>=◌, or_raise,
}
use claim_ci.Parsing.{load_json}
use claim_ci.World.{World, as_mapping}
use claim_ci.Results.Numbers.{finite_number, summarize_runs}

pub record LoadedResults : Type 0 where
  pub path : String
  pub values : List Float
  pub seeds : List (Option ℤ)
  pub claimed_summary : Option Float

-- A seed counts only if it is an integer; a Boolean is none.
abbrev pub seed_of : Option Value → Option ℤ
seed_of (some (int n)) = some n
seed_of _ = none

-- One run: its value for the metric, and its seed.
unfoldable pub read_run : Floats → String → Value → Result (Float × Option ℤ)
read_run fl metric (mapping run) = do
  v ← or_raise (get metric run) missing_metric
  x ← or_raise (finite_number fl v) not_finite
  ok (x, seed_of (get "seed" run))
read_run fl metric _ = err wrong_shape

unfoldable pub read_runs : Floats → String → Items → Result (List (Float × Option ℤ))
unfolding read_run
read_runs fl metric nil = ok []
read_runs fl metric (item run runs) =
    read_run fl metric run >>= λ r. read_runs fl metric runs >>= λ rs. ok (r ∷ rs)

abbrev pub values_of : List (Float × Option ℤ) → List Float
values_of [] = []
values_of ((x, s) ∷ rs) = x ∷ values_of rs

abbrev pub seeds_of : List (Float × Option ℤ) → List (Option ℤ)
seeds_of [] = []
seeds_of ((x, s) ∷ rs) = s ∷ seeds_of rs

-- `payload.get("runs")`, a list that is not empty
abbrev pub as_runs : Option Value → Result Items
as_runs (some (list (item run runs))) = ok (item run runs)
as_runs _ = err wrong_shape

unfoldable pub claimed_number : Floats → Option Value → Result (Option Float)
unfolding finite_number
claimed_number fl none = ok none
claimed_number fl (some null) = ok none
claimed_number fl (some v) = or_raise (finite_number fl v) not_finite >>= λ x. ok (some x)

-- `summary.get(metric, summary.get("mean"))`
abbrev pub claimed_value : String → Fields → Option Value
claimed_value metric summary = elim (get metric summary) [
  | none ↦ get "mean" summary
  | some v ↦ some v
]

unfoldable pub claimed_of : Floats → String → Option Value → Result (Option Float)
unfolding claimed_number
claimed_of fl metric none = ok none
claimed_of fl metric (some null) = ok none
claimed_of fl metric (some v) =
    as_mapping v >>= λ summary. claimed_number fl (claimed_value metric summary)

unfoldable pub load_results : World → String → String → Result LoadedResults
load_results w path metric = do
  text ← or_raise (w.read_text path) unreadable
  raw ← or_raise (w.read_json text) malformed
  payload ← load_json raw
  document ← as_mapping payload
  runs ← as_runs (get "runs" document)
  read ← read_runs w.floats metric runs
  claimed_summary ← claimed_of w.floats metric (get "summary" document)
  summary ← summarize_runs w.floats (values_of read)
  resolved ← or_raise (w.resolve path) unreadable
  ok (record {
    path = resolved;
    values = values_of read;
    seeds = seeds_of read;
    claimed_summary = claimed_summary;
  })
