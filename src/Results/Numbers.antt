-- ===== src/Results/Numbers.antt =====
-- Finite numbers, their decimal spelling, and `summarize_runs`.
use claim_ci.Prelude.{
  ℕ, ◌+◌, Bool, true, false, max, Option, none, some, List, [], ◌∷◌, length, if◌then◌else◌,
  is_empty, not,
}
use claim_ci.Decimal.{Decimal, of_ℕ, num_digits, sum, div}
use claim_ci.Floats.{Floats}
use claim_ci.Value.{Float, finite, infinite, nan, Value, int, float}
use claim_ci.Models.{
  Result, ok, err, not_finite, no_runs, ◌>>=◌, ◌>>◌, require, or_raise, MetricSummary,
}

-- `math.isfinite`
abbrev pub is_finite : Float → Bool
is_finite (finite m e) = true
is_finite (infinite negative) = false
is_finite nan = false

abbrev pub if_finite : Option Float → Option Float
if_finite none = none
if_finite (some x) = if is_finite x then some x else none

-- `_finite_number`
unfoldable pub finite_number : Floats → Value → Option Float
finite_number fl (int n) = if_finite (fl.of_int n)
finite_number fl (float x) = if_finite (some x)
finite_number fl v = none

-- `_decimal_number` of a float
unfoldable pub decimal_number : Floats → Float → Result Decimal
decimal_number fl (finite m e) = ok (fl.spelling m e)
decimal_number fl x = err not_finite

-- `_finite_float`
unfoldable pub finite_float : Floats → Decimal → Result Float
finite_float fl d = let x = fl.of_decimal d in if is_finite x then ok x else err not_finite

-- `Decimal(str(x))` for each value; a value that is not finite raises.
unfoldable pub spell_all : Floats → List Float → Result (List Decimal)
unfolding decimal_number
spell_all fl [] = ok []
spell_all fl (x ∷ xs) = decimal_number fl x >>= λ d. spell_all fl xs >>= λ ds. ok (d ∷ ds)

most_digits : List Decimal → ℕ
unfolding num_digits
most_digits [] = 0
most_digits (d ∷ ds) = max (num_digits d.coefficient) (most_digits ds)

-- The precision that `summarize_runs` sets for the mean.
unfoldable pub mean_precision : List Decimal → ℕ
unfolding most_digits num_digits
mean_precision ds = max 28 (most_digits ds + num_digits (length ds) + 4)

unfoldable pub decimal_mean : List Decimal → Decimal
unfolding mean_precision sum div
decimal_mean ds = let prec = mean_precision ds in div prec (sum prec (of_ℕ 0) ds) (of_ℕ (length ds))

abbrev pub finite_or_raise : Option Float → Result Float
finite_or_raise o = or_raise (if_finite o) not_finite

-- `statistics.stdev` for two values or more
unfoldable pub deviation : Floats → List Float → Result (Option Float)
deviation fl [] = ok none
deviation fl (x ∷ []) = ok none
deviation fl (x ∷ y ∷ xs) = finite_or_raise (fl.stdev (x ∷ y ∷ xs)) >>= λ s. ok (some s)

unfoldable pub summarize_runs : Floats → List Float → Result MetricSummary
unfolding spell_all decimal_mean finite_float deviation
summarize_runs fl values = do
  require (not (is_empty values)) no_runs
  decimals ← spell_all fl values
  binary_mean ← finite_or_raise (fl.fmean values)
  mean ← finite_float fl (decimal_mean decimals)
  standard_deviation ← deviation fl values
  ok (record { count = length values; mean = mean; standard_deviation = standard_deviation })
