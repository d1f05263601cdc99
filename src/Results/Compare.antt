-- ===== src/Results/Compare.antt =====
-- `_metric_summary_comparison`: the improvement in the declared direction against the threshold.
use claim_ci.Prelude.{ℕ, Bool, true, false, Option, none, some, [], ◌∷◌, String, if◌then◌else◌}
use claim_ci.Prelude.Int.{pos}
use claim_ci.Decimal.{Decimal, le_decimal, is_zero, sub, div, abs}
use claim_ci.Floats.{Floats}
use claim_ci.Value.{Float, finite}
use claim_ci.Models.{
  Result, ok, bad_threshold, ◌>>=◌, ◌>>◌, require, Finding, Datum, Evidence, MetricSummary,
  DirectionValue, coerce_direction,
}
use claim_ci.Models.Enums.{Severity, Impact, Direction}
use claim_ci.Results.{is_finite, decimal_number, finite_float}

-- The precision of Python's default decimal context.
abbrev pub default_precision : ℕ
default_precision = 28

-- A finite number that is not negative.
abbrev pub is_threshold : Float → Bool
is_threshold (finite (pos m) e) = true
is_threshold _ = false

abbrev pub direction_name : Direction → String
direction_name Direction.higher = "higher"
direction_name Direction.lower = "lower"

-- The candidate's improvement over the baseline, rounded to the default context.
unfoldable pub absolute : Direction → Decimal → Decimal → Decimal
absolute Direction.higher baseline candidate = sub default_precision candidate baseline
absolute Direction.lower baseline candidate = sub default_precision baseline candidate

-- `None` for a baseline of zero, or where the quotient is out of a float's range.
unfoldable pub relative : Floats → Decimal → Decimal → Option Float
relative fl improvement baseline =
    let quotient =
      fl.of_decimal (div default_precision improvement (abs default_precision baseline)) in
    if is_zero baseline then none else if is_finite quotient then some quotient else none

abbrev pub optional : Option Float → Datum
optional none = Datum.nothing
optional (some x) = Datum.real x

unfoldable pub claim_finding : Bool → Evidence → Finding
claim_finding supported evidence =
    if supported
    then record {
      rule_id = "RESULT.CLAIM_SUPPORTED";
      severity = Severity.verified;
      evidence = evidence;
      impact = Impact.none;
    }
    else record {
      rule_id = "RESULT.CLAIM_NOT_SUPPORTED";
      severity = Severity.critical;
      evidence = evidence;
      impact = Impact.invalidates;
    }

pub record Comparison : Type 0 where
  pub absolute_improvement : Float
  pub relative_improvement : Option Float
  pub finding : Finding

unfoldable pub metric_summary_comparison :
    Floats → MetricSummary → MetricSummary → Float → DirectionValue → Result Comparison
unfolding absolute relative claim_finding
metric_summary_comparison fl baseline candidate minimum declared = do
  normalized ← coerce_direction declared
  b ← decimal_number fl baseline.mean
  c ← decimal_number fl candidate.mean
  require (is_threshold minimum) bad_threshold
  threshold ← decimal_number fl minimum
  let improvement = absolute normalized b c
  public ← finite_float fl improvement
  let portion = relative fl improvement b
  ok (record {
    absolute_improvement = public;
    relative_improvement = portion;
    finding = claim_finding (le_decimal threshold improvement) (
        ("minimum_improvement", Datum.real minimum)
        ∷ ("absolute_improvement", Datum.real public)
        ∷ ("relative_improvement", optional portion)
        ∷ ("direction", Datum.text (direction_name normalized))
        ∷ []);
  })
