-- ===== src/Results/Loading.antt =====
-- `load_results`: what the file behind accepted results holds.
use claim_ci.Prelude.{
  suc, ◌<◌, ◌≡◌, refl, sym, ap, ◌∙◌, subst, Bool, true, false, all, length, Option, none, some,
  List, [], ◌∷◌, String, arith,
}
use claim_ci.Prelude.Int.{ℤ}
use claim_ci.Floats.{Floats}
use claim_ci.Value.{
  Float, finite, infinite, nan, Value, Items, Fields, null, bool, int, float, str, list, mapping,
  opaque, nil, item, get,
}
use claim_ci.Models.{
  ok, unreadable, malformed, missing_metric, not_finite, >>=-eq-ok, ok-injective, or_raise,
  or_raise-eq-ok, MetricSummary,
}
use claim_ci.Parsing.{Raw, load_json}
use claim_ci.World.{World, as_mapping}
use claim_ci.Results.{
  LoadedResults, is_finite, finite_number, summarize_runs, load_results, read_run, read_runs,
  claimed_of, values_of, seeds_of,
}
use claim_ci.Results.Numbers.{if_finite}
use claim_ci.Results.Runs.{as_runs}

-- Each run was read as the pair at its place.
abbrev pub ReadAs : Floats → String → Items → List (Float × Option ℤ) → Type 0
ReadAs fl metric nil [] = Unit
ReadAs fl metric nil (r ∷ rs) = ⊥
ReadAs fl metric (item run runs) [] = ⊥
ReadAs fl metric (item run runs) (r ∷ rs) =
    (read_run fl metric run ≡ ok r) × ReadAs fl metric runs rs

read_runs-ReadAs :
    (fl : Floats) (metric : String) (runs : Items) (rs : List (Float × Option ℤ))
    → read_runs fl metric runs ≡ ok rs
    → ReadAs fl metric runs rs
unfolding read_runs
read_runs-ReadAs fl metric nil [] h = tt
read_runs-ReadAs fl metric nil (r ∷ rs) h = cc
read_runs-ReadAs fl metric (item run runs) rs h =
    let (r, first, h1) = >>=-eq-ok (read_run fl metric run) _ h in
    let (more, rest, h2) = >>=-eq-ok (read_runs fl metric runs) _ h1 in
    subst (ReadAs fl metric (item run runs)) (ok-injective h2)
      (first, read_runs-ReadAs fl metric runs more rest)

abbrev is_finite_in : Option Float → Bool
is_finite_in none = false
is_finite_in (some x) = is_finite x

if_finite-eq-some : (o : Option Float) {x : Float} → if_finite o ≡ some x → is_finite x ≡ true
if_finite-eq-some none h = cc
if_finite-eq-some (some (finite m e)) h = subst (λ o. is_finite_in o ≡ true) h refl
if_finite-eq-some (some (infinite n)) h = cc
if_finite-eq-some (some nan) h = cc

finite_number-eq-some :
    (fl : Floats) (v : Value) {x : Float} → finite_number fl v ≡ some x → is_finite x ≡ true
unfolding finite_number
finite_number-eq-some fl (int n) h = if_finite-eq-some (fl.of_int n) h
finite_number-eq-some fl (float y) h = if_finite-eq-some (some y) h
finite_number-eq-some fl null h = cc
finite_number-eq-some fl (bool b) h = cc
finite_number-eq-some fl (str s) h = cc
finite_number-eq-some fl (list xs) h = cc
finite_number-eq-some fl (mapping f) h = cc
finite_number-eq-some fl (opaque n) h = cc

run-finite :
    (fl : Floats) (metric : String) (v : Value) (r : Float × Option ℤ)
    → read_run fl metric v ≡ ok r
    → is_finite r.0 ≡ true
unfolding read_run
run-finite fl metric (mapping run) r h =
    let (v, found, h1) = >>=-eq-ok (or_raise (get metric run) missing_metric) _ h in
    let (x, number, h2) = >>=-eq-ok (or_raise (finite_number fl v) not_finite) _ h1 in
    subst (λ r. is_finite r.0 ≡ true) (ok-injective h2)
      (finite_number-eq-some fl v (or_raise-eq-ok _ not_finite number))
run-finite fl metric (null) r h = cc
run-finite fl metric (bool b) r h = cc
run-finite fl metric (int n) r h = cc
run-finite fl metric (float x) r h = cc
run-finite fl metric (str s) r h = cc
run-finite fl metric (list xs) r h = cc
run-finite fl metric (opaque n) r h = cc

ReadAs-finite :
    (fl : Floats) (metric : String) (runs : Items) (rs : List (Float × Option ℤ))
    → ReadAs fl metric runs rs
    → all is_finite (values_of rs) ≡ true
ReadAs-finite fl metric nil [] h = refl
ReadAs-finite fl metric nil (r ∷ rs) h = absurd h
ReadAs-finite fl metric (item run runs) [] h = absurd h
ReadAs-finite fl metric (item run runs) ((x, s) ∷ rs) (first, rest) =
    rw (run-finite fl metric run (x, s) first) (ReadAs-finite fl metric runs rs rest)

values-length : (rs : List (Float × Option ℤ)) → length (values_of rs) ≡ length (seeds_of rs)
values-length [] = refl
values-length ((x, s) ∷ rs) = ap suc (values-length rs)

-- Each run is a mapping that has the metric, a finite number, as the value at its place.
abbrev pub Measured : Floats → String → Items → List Float → Type 0
Measured fl metric nil [] = Unit
Measured fl metric nil (x ∷ xs) = ⊥
Measured fl metric (item run runs) [] = ⊥
Measured fl metric (item run runs) (x ∷ xs) =
    ((fields : Fields) × (v : Value) × (run ≡ mapping fields)
      × (get metric fields ≡ some v)
      × (finite_number fl v ≡ some x))
    × Measured fl metric runs xs

run-measured :
    (fl : Floats) (metric : String) (run : Value) (r : Float × Option ℤ)
    → read_run fl metric run ≡ ok r
    → (fields : Fields) × (v : Value) × (run ≡ mapping fields)
      × (get metric fields ≡ some v)
      × (finite_number fl v ≡ some r.0)
unfolding read_run
run-measured fl metric (mapping run) r h =
    let (v, found, h1) = >>=-eq-ok (or_raise (get metric run) missing_metric) _ h in
    let (x, number, h2) = >>=-eq-ok (or_raise (finite_number fl v) not_finite) _ h1 in
    (
      run,
      v,
      refl,
      or_raise-eq-ok _ missing_metric found,
      or_raise-eq-ok _ not_finite number
          ∙ ap (λ (r : Float × Option ℤ). some r.0) (ok-injective h2),
    )
run-measured fl metric (null) r h = cc
run-measured fl metric (bool b) r h = cc
run-measured fl metric (int n) r h = cc
run-measured fl metric (float x) r h = cc
run-measured fl metric (str s) r h = cc
run-measured fl metric (list xs) r h = cc
run-measured fl metric (opaque n) r h = cc

ReadAs-Measured :
    (fl : Floats) (metric : String) (runs : Items) (rs : List (Float × Option ℤ))
    → ReadAs fl metric runs rs
    → Measured fl metric runs (values_of rs)
ReadAs-Measured fl metric nil [] h = tt
ReadAs-Measured fl metric nil (r ∷ rs) h = absurd h
ReadAs-Measured fl metric (item run runs) [] h = absurd h
ReadAs-Measured fl metric (item run runs) ((x, s) ∷ rs) (first, rest) =
    (run-measured fl metric run (x, s) first, ReadAs-Measured fl metric runs rs rest)

as_mapping-eq-ok : (v : Value) {f : Fields} → as_mapping v ≡ ok f → v ≡ mapping f
as_mapping-eq-ok (mapping f) h = ap mapping (ok-injective h)
as_mapping-eq-ok null h = cc
as_mapping-eq-ok (bool b) h = cc
as_mapping-eq-ok (int n) h = cc
as_mapping-eq-ok (float x) h = cc
as_mapping-eq-ok (str s) h = cc
as_mapping-eq-ok (list xs) h = cc
as_mapping-eq-ok (opaque n) h = cc

-- What an accepted results file holds.
pub record LoadedRuns (w : World) (path metric : String) (loaded : LoadedResults) : Type 0 where
  pub text : String
  pub raw : Raw
  pub document : Fields
  pub runs : Items
  pub pairs : List (Float × Option ℤ)
  -- the document is what the file at the path holds
  pub found : w.read_text path ≡ some text
  pub grammar : w.read_json text ≡ some raw
  pub decoded : load_json raw ≡ ok (mapping document)
  pub listed : get "runs" document ≡ some (list runs)
  pub measured : Measured w.floats metric runs loaded.values
  pub read : ReadAs w.floats metric runs pairs
  pub values_eq : loaded.values ≡ values_of pairs
  pub seeds_eq : loaded.seeds ≡ seeds_of pairs
  pub claimed_eq : claimed_of w.floats metric (get "summary" document) ≡ ok loaded.claimed_summary
  pub same_length : length loaded.values ≡ length loaded.seeds
  pub all_finite : all is_finite loaded.values ≡ true
  pub filled : 0 < length loaded.values
  pub summary : MetricSummary
  pub summary_eq : summarize_runs w.floats loaded.values ≡ ok summary

as_runs-eq-ok :
    (o : Option Value) {runs : Items}
    → as_runs o ≡ ok runs
    → (o ≡ some (list runs)) × (first : Value) × (rest : Items) × (runs ≡ item first rest)
as_runs-eq-ok none h = cc
as_runs-eq-ok (some (list (item run rest))) h =
    (ap (λ r. some (list r)) (ok-injective h), run, rest, sym (ok-injective h))
as_runs-eq-ok (some (list nil)) h = cc
as_runs-eq-ok (some null) h = cc
as_runs-eq-ok (some (bool b)) h = cc
as_runs-eq-ok (some (int n)) h = cc
as_runs-eq-ok (some (float x)) h = cc
as_runs-eq-ok (some (str s)) h = cc
as_runs-eq-ok (some (mapping f)) h = cc
as_runs-eq-ok (some (opaque n)) h = cc

ReadAs-filled :
    (fl : Floats) (metric : String) (first : Value) (rest : Items) (rs : List (Float × Option ℤ))
    → ReadAs fl metric (item first rest) rs
    → 0 < length (values_of rs)
ReadAs-filled fl metric first rest [] h = absurd h
ReadAs-filled fl metric first rest ((x, s) ∷ rs) h = omega arith

-- The results that `load_results` returns come from the file's text, which is the JSON of a mapping
-- with a list of runs that is not empty. The values and seeds are those of all the runs, in order,
-- one of each for every run: each run is a mapping that has the metric, a finite number, so a file
-- with a run without it is refused. The values have a summary.
pub load_results-LoadedRuns :
    (w : World) (path metric : String) (loaded : LoadedResults)
    → load_results w path metric ≡ ok loaded
    → LoadedRuns w path metric loaded
unfolding load_results
load_results-LoadedRuns w path metric loaded h =
    let (text, found, h1) = >>=-eq-ok (or_raise (w.read_text path) unreadable) _ h in
    let (raw, grammar, h2) = >>=-eq-ok (or_raise (w.read_json text) malformed) _ h1 in
    let (payload, loaded_json, h3) = >>=-eq-ok (load_json raw) _ h2 in
    let (document, shaped, h4) = >>=-eq-ok (as_mapping payload) _ h3 in
    let (runs, listed, h5) = >>=-eq-ok (as_runs (get "runs" document)) _ h4 in
    let (pairs, read, h6) = >>=-eq-ok (read_runs w.floats metric runs) _ h5 in
    let (claimed, claimed_eq, h7) =
      >>=-eq-ok (claimed_of w.floats metric (get "summary" document)) _ h6 in
    let (summary, summary_eq, h8) = >>=-eq-ok (summarize_runs w.floats (values_of pairs)) _ h7 in
    let (resolved, _, h9) = >>=-eq-ok (or_raise (w.resolve path) unreadable) _ h8 in
    let (is_list, first, rest, filled) = as_runs-eq-ok (get "runs" document) listed in
    let as_read = read_runs-ReadAs w.floats metric runs pairs read in
    subst (LoadedRuns w path metric) (ok-injective h9) (record {
      text = text;
      raw = raw;
      document = document;
      found = or_raise-eq-ok _ unreadable found;
      grammar = or_raise-eq-ok _ malformed grammar;
      decoded = loaded_json ∙ ap ok (as_mapping-eq-ok payload shaped);
      measured = ReadAs-Measured w.floats metric runs pairs as_read;
      runs = runs;
      pairs = pairs;
      listed = is_list;
      read = as_read;
      values_eq = refl;
      seeds_eq = refl;
      claimed_eq = claimed_eq;
      same_length = values-length pairs;
      all_finite = ReadAs-finite w.floats metric runs pairs as_read;
      filled =
          ReadAs-filled w.floats metric first rest pairs
            (subst (λ r. ReadAs w.floats metric r pairs) filled as_read);
      summary = summary;
      summary_eq = summary_eq;
    })
