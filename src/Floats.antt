-- ===== src/Floats.antt =====
-- What the program asks of Python's binary floats beyond comparing them: the shortest decimal
-- spelling, conversions with rounding, and two functions of `statistics`. They are parameters.
use claim_ci.Prelude.{Option, List}
use claim_ci.Prelude.Int.{ℤ}
use claim_ci.Decimal.{Decimal}
use claim_ci.Value.{Float}

pub record Floats : Type 0 where
  -- `Decimal(str(x))` of the float mantissa * 2 ^ exponent
  pub spelling : ℤ → ℤ → Decimal
  -- `float(d)`, infinite where it is out of range
  pub of_decimal : Decimal → Float
  -- `float(n)`; `none` is `OverflowError`
  pub of_int : ℤ → Option Float
  -- `statistics.fmean`; `none` is an exception that the program catches
  pub fmean : List Float → Option Float
  -- `statistics.stdev`, for two values or more
  pub stdev : List Float → Option Float
