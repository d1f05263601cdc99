-- ===== src/Examples/Runs.antt =====
-- Results of two experiments.
use claim_ci.Prelude.{any, false, strip, ◌≡◌, ◌↔◌, refl, true, is_empty, none, some, [], ◌∷◌}
use claim_ci.Prelude.Int.{pos, negsuc}
use claim_ci.Decimal.{Decimal, of_ℕ, le_decimal, exact_add, negate, sub}
use claim_ci.Value.{Float, finite, int, str, get}
use claim_ci.Models.{ok, MetricSummary, DirectionValue, coerce_direction}
use claim_ci.Models.Enums.{Direction, is_invalidates}
use claim_ci.Parsing.{load_json}
use claim_ci.Results.{
  LoadedResults, load_results, summarize_runs, seed_findings, decimal_number, finite_float,
  finite_number, read_runs, claimed_of,
}
use claim_ci.Results.Compare.{Comparison, absolute, metric_summary_comparison}
use claim_ci.Results.Check.{ResultCheck, check_results, summary_mismatch_finding, summary_agrees}
use claim_ci.Results.Aggregates.{
  Aggregates, check_reported_aggregates, Reported, check_reported_aggregates-Reported,
}
use claim_ci.Results.Claim.{
  Compared, metric_summary_comparison-Compared, metric_summary_comparison-opposite,
}
use claim_ci.Results.Gates.{Checked, check_results-Checked}
use claim_ci.Results.Verified.{says_verified, seeds_in_order, check_results-seeds_in_order}
use claim_ci.Results.Independence.{IsSeeded, seed_findings-IsSeeded}
use claim_ci.Results.Loading.{LoadedRuns, load_results-LoadedRuns}
use claim_ci.Examples.Inputs.{wholes, disk}

abbrev ten : Float
ten = finite (pos 10) (pos 0)

abbrev twelve : Float
twelve = finite (pos 12) (pos 0)

abbrev two : Float
two = finite (pos 2) (pos 0)

abbrev results : Float → LoadedResults
results x = record {
  path = "results.json";
  values = x ∷ x ∷ [];
  seeds = some (pos 1) ∷ some (pos 2) ∷ [];
  claimed_summary = some x;
}

abbrev mean : Float → MetricSummary
mean x = record { count = 2; mean = x; standard_deviation = none }

abbrev upwards : DirectionValue
upwards = DirectionValue.direction Direction.higher

abbrev downwards : DirectionValue
downwards = DirectionValue.direction Direction.lower

seed_findings-IsSeeded_example :
    (is_empty (seed_findings "baseline" (results ten)) ≡ true) ↔ IsSeeded (results ten)
seed_findings-IsSeeded_example = seed_findings-IsSeeded "baseline" (results ten)

results_of_disk : (r : LoadedResults) × (load_results disk "before" "score" ≡ ok r)
unfolding load_results load_json get read_runs finite_number claimed_of summarize_runs
    decimal_number finite_float
results_of_disk = (_, refl)

load_results-LoadedRuns_example : LoadedRuns disk "before" "score" results_of_disk.0
load_results-LoadedRuns_example =
    load_results-LoadedRuns disk "before" "score" results_of_disk.0 results_of_disk.1

raised :
    (r : Comparison) × (metric_summary_comparison wholes (mean ten) (mean twelve) two upwards
      ≡ ok r)
unfolding metric_summary_comparison coerce_direction decimal_number finite_float sub
raised = (_, refl)

fallen :
    (r : Comparison) × (metric_summary_comparison wholes (mean twelve) (mean ten) two downwards
      ≡ ok r)
unfolding metric_summary_comparison coerce_direction decimal_number finite_float sub
fallen = (_, refl)

metric_summary_comparison-Compared_example :
    Compared wholes (mean ten) (mean twelve) two upwards raised.0
metric_summary_comparison-Compared_example =
    metric_summary_comparison-Compared wholes (mean ten) (mean twelve) two upwards raised.0 raised.1

metric_summary_comparison-opposite_example :
    (fallen.0.absolute_improvement ≡ raised.0.absolute_improvement)
    × (is_invalidates fallen.0.finding.impact ≡ is_invalidates raised.0.finding.impact)
metric_summary_comparison-opposite_example =
    metric_summary_comparison-opposite wholes (mean twelve) (mean ten) two fallen.0 raised.0
      fallen.1 raised.1

checked :
    (r : ResultCheck) × (check_results wholes (results ten) (results twelve) two upwards ≡ ok r)
unfolding check_results summarize_runs metric_summary_comparison coerce_direction decimal_number
    finite_float summary_mismatch_finding summary_agrees sub
checked = (_, refl)

check_results-Checked_example : Checked wholes (results ten) (results twelve) two upwards checked.0
check_results-Checked_example =
    check_results-Checked wholes (results ten) (results twelve) two upwards checked.0 checked.1

check_results-seeds_in_order_example :
    any says_verified checked.0.findings ≡ seeds_in_order (results ten) (results twelve)
check_results-seeds_in_order_example =
    check_results-seeds_in_order wholes (results ten) (results twelve) two upwards checked.0
      checked.1

abbrev reports : Aggregates
reports = record {
  baseline_value = int (pos 10);
  candidate_value = int (pos 12);
  baseline_sample_count = int (pos 1);
  candidate_sample_count = int (pos 50);
  statistic = str "accuracy";
  aggregation = str "mean";
  minimum_improvement = two;
  declared = upwards;
}

reported_pair : (r : ResultCheck) × (check_reported_aggregates wholes reports ≡ ok r)
unfolding check_reported_aggregates strip finite_number metric_summary_comparison coerce_direction
    decimal_number finite_float sub
reported_pair = (_, refl)

check_reported_aggregates-Reported_example : Reported wholes reports reported_pair.0
check_reported_aggregates-Reported_example =
    check_reported_aggregates-Reported wholes reports reported_pair.0 reported_pair.1

-- 1 - 1e-40, and the threshold 1, which the rounded difference reaches and the exact one does not.
abbrev tiny : Decimal
tiny = record { negative = false; coefficient = 1; exponent = negsuc 39 }

rounded_up :
    (le_decimal (of_ℕ 1) (absolute Direction.higher tiny (of_ℕ 1)) ≡ true)
    × (le_decimal (of_ℕ 1) (exact_add (of_ℕ 1) (negate tiny)) ≡ false)
unfolding absolute le_decimal exact_add negate sub
rounded_up = (refl, refl)
