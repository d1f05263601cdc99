-- ===== src/Results/Caught.antt =====
-- `load_results` raises nothing but `ClaimCIError`.
use claim_ci.Prelude.{
  ◌≡◌, refl, true, not, is_empty, Bool-cases, inl, inr, Option, none, some, List, [], ◌∷◌, String,
}
use claim_ci.Decimal.{Decimal}
use claim_ci.Floats.{Floats}
use claim_ci.Value.{
  Float, finite, infinite, nan, Value, Items, Fields, null, bool, int, float, str, list, mapping,
  opaque, nil, item, get,
}
use claim_ci.Models.{
  Result, ok, is_caught, unreadable, malformed, missing_metric, not_finite, no_runs, ◌>>=◌,
  or_raise, require,
}
use claim_ci.Parsing.{load_json}
use claim_ci.World.{World, as_mapping}
use claim_ci.Results.{
  is_finite, finite_number, decimal_number, finite_float, summarize_runs, read_run, read_runs,
  claimed_of, load_results,
}
use claim_ci.Results.Numbers.{spell_all, deviation, finite_or_raise, decimal_mean}
use claim_ci.Results.Runs.{
  as_runs, claimed_number, claimed_value, values_of, seeds_of, LoadedResults,
}
use claim_ci.Models.Caught.{bind-caught, or_raise-caught, require-caught}
use claim_ci.Parsing.Caught.{load_json-caught}

pub as_mapping-caught : (v : Value) → is_caught (as_mapping v) ≡ true
as_mapping-caught (mapping f) = refl
as_mapping-caught null = refl
as_mapping-caught (bool b) = refl
as_mapping-caught (int n) = refl
as_mapping-caught (float x) = refl
as_mapping-caught (str s) = refl
as_mapping-caught (list xs) = refl
as_mapping-caught (opaque n) = refl

read_run-caught :
    (fl : Floats) (metric : String) (run : Value) → is_caught (read_run fl metric run) ≡ true
unfolding read_run
read_run-caught fl metric (mapping run) =
    bind-caught (or_raise (get metric run) missing_metric) _ (or_raise-caught _ missing_metric refl)
      λ v e.
        bind-caught (or_raise (finite_number fl v) not_finite) _ (or_raise-caught _ not_finite refl)
          λ x f. refl
read_run-caught fl metric null = refl
read_run-caught fl metric (bool b) = refl
read_run-caught fl metric (int n) = refl
read_run-caught fl metric (float x) = refl
read_run-caught fl metric (str s) = refl
read_run-caught fl metric (list xs) = refl
read_run-caught fl metric (opaque n) = refl

read_runs-caught :
    (fl : Floats) (metric : String) (runs : Items) → is_caught (read_runs fl metric runs) ≡ true
unfolding read_runs
read_runs-caught fl metric nil = refl
read_runs-caught fl metric (item run runs) =
    bind-caught (read_run fl metric run) _ (read_run-caught fl metric run)
      λ r e. bind-caught (read_runs fl metric runs) _ (read_runs-caught fl metric runs) λ rs f. refl

as_runs-caught : (o : Option Value) → is_caught (as_runs o) ≡ true
as_runs-caught none = refl
as_runs-caught (some (list (item run rest))) = refl
as_runs-caught (some (list nil)) = refl
as_runs-caught (some null) = refl
as_runs-caught (some (bool b)) = refl
as_runs-caught (some (int n)) = refl
as_runs-caught (some (float x)) = refl
as_runs-caught (some (str s)) = refl
as_runs-caught (some (mapping f)) = refl
as_runs-caught (some (opaque n)) = refl

number-caught :
    (fl : Floats) (v : Value)
    → is_caught (or_raise (finite_number fl v) not_finite >>= λ x. ok (some x)) ≡ true
number-caught fl v =
    bind-caught (or_raise (finite_number fl v) not_finite) _ (or_raise-caught _ not_finite refl)
      λ x e. refl

claimed_number-caught : (fl : Floats) (o : Option Value) → is_caught (claimed_number fl o) ≡ true
unfolding claimed_number
claimed_number-caught fl none = refl
claimed_number-caught fl (some null) = refl
claimed_number-caught fl (some (bool b)) = number-caught fl (bool b)
claimed_number-caught fl (some (int n)) = number-caught fl (int n)
claimed_number-caught fl (some (float x)) = number-caught fl (float x)
claimed_number-caught fl (some (str s)) = number-caught fl (str s)
claimed_number-caught fl (some (list xs)) = number-caught fl (list xs)
claimed_number-caught fl (some (mapping f)) = number-caught fl (mapping f)
claimed_number-caught fl (some (opaque n)) = number-caught fl (opaque n)

claimed_of-caught :
    (fl : Floats) (metric : String) (o : Option Value) → is_caught (claimed_of fl metric o) ≡ true
unfolding claimed_of
claimed_of-caught fl metric none = refl
claimed_of-caught fl metric (some null) = refl
claimed_of-caught fl metric (some (mapping f)) = claimed_number-caught fl (claimed_value metric f)
claimed_of-caught fl metric (some (bool b)) = refl
claimed_of-caught fl metric (some (int n)) = refl
claimed_of-caught fl metric (some (float x)) = refl
claimed_of-caught fl metric (some (str s)) = refl
claimed_of-caught fl metric (some (list xs)) = refl
claimed_of-caught fl metric (some (opaque n)) = refl

decimal_number-caught : (fl : Floats) (x : Float) → is_caught (decimal_number fl x) ≡ true
unfolding decimal_number
decimal_number-caught fl (finite m e) = refl
decimal_number-caught fl (infinite n) = refl
decimal_number-caught fl nan = refl

spell_all-caught : (fl : Floats) (xs : List Float) → is_caught (spell_all fl xs) ≡ true
unfolding spell_all
spell_all-caught fl [] = refl
spell_all-caught fl (x ∷ xs) =
    bind-caught (decimal_number fl x) _ (decimal_number-caught fl x)
      λ d e. bind-caught (spell_all fl xs) _ (spell_all-caught fl xs) λ ds f. refl

finite_float-caught : (fl : Floats) (d : Decimal) → is_caught (finite_float fl d) ≡ true
unfolding finite_float
finite_float-caught fl d = elim (Bool-cases (is_finite (fl.of_decimal d))) [
  | inl e ↦ rw e refl
  | inr e ↦ rw e refl
]

deviation-caught : (fl : Floats) (xs : List Float) → is_caught (deviation fl xs) ≡ true
unfolding deviation
deviation-caught fl [] = refl
deviation-caught fl (x ∷ []) = refl
deviation-caught fl (x ∷ y ∷ xs) =
    bind-caught (finite_or_raise (fl.stdev (x ∷ y ∷ xs))) _ (or_raise-caught _ not_finite refl)
      λ s e. refl

summarize_runs-caught : (fl : Floats) (xs : List Float) → is_caught (summarize_runs fl xs) ≡ true
unfolding summarize_runs
summarize_runs-caught fl xs =
    bind-caught (require (not (is_empty xs)) no_runs) _ (require-caught _ no_runs refl) λ u e.
      bind-caught (spell_all fl xs) _ (spell_all-caught fl xs) λ ds f.
        bind-caught (finite_or_raise (fl.fmean xs)) _ (or_raise-caught _ not_finite refl)
          λ binary g.
            bind-caught (finite_float fl (decimal_mean ds)) _
              (finite_float-caught fl (decimal_mean ds))
              λ mean h. bind-caught (deviation fl xs) _ (deviation-caught fl xs) λ s i. refl

-- The end of `load_results`, once the runs are found.
abbrev after_runs : World → String → String → Fields → Items → Result LoadedResults
after_runs w path metric document runs = do
  read ← read_runs w.floats metric runs
  claimed_summary ← claimed_of w.floats metric (get "summary" document)
  summary ← summarize_runs w.floats (values_of read)
  resolved ← or_raise (w.resolve path) unreadable
  ok (record {
    path = resolved;
    values = values_of read;
    seeds = seeds_of read;
    claimed_summary = claimed_summary;
  })

after_runs-caught :
    (w : World) (path metric : String) (f : Fields) (runs : Items)
    → is_caught (after_runs w path metric f runs) ≡ true
after_runs-caught w path metric f runs =
    bind-caught (read_runs w.floats metric runs) _ (read_runs-caught w.floats metric runs) λ read e.
      bind-caught (claimed_of w.floats metric (get "summary" f)) _
        (claimed_of-caught w.floats metric (get "summary" f))
        λ claimed g.
          bind-caught (summarize_runs w.floats (values_of read)) _
            (summarize_runs-caught w.floats (values_of read))
            λ summary h.
              bind-caught (or_raise (w.resolve path) unreadable) _
                (or_raise-caught _ unreadable refl) λ resolved i. refl

pub load_results-caught :
    (w : World) (path metric : String) → is_caught (load_results w path metric) ≡ true
unfolding load_results
load_results-caught w path metric =
    bind-caught (or_raise (w.read_text path) unreadable) _ (or_raise-caught _ unreadable refl)
      λ text e1.
        bind-caught (or_raise (w.read_json text) malformed) _ (or_raise-caught _ malformed refl)
          λ raw e2. bind-caught (load_json raw) _ (load_json-caught raw) λ payload e3.
            bind-caught (as_mapping payload) _ (as_mapping-caught payload) λ f e4.
              bind-caught (as_runs (get "runs" f)) _ (as_runs-caught (get "runs" f))
                λ runs e5. after_runs-caught w path metric f runs
