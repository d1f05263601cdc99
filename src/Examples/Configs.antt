-- ===== src/Examples/Configs.antt =====
-- Configs that train for a different number of steps.
use claim_ci.Prelude.{◌*◌, ◌≡◌, refl, true, false, ◌||◌, any, leb, is_empty, some, arith}
use claim_ci.Prelude.Int.{pos, negsuc}
use claim_ci.Decimal.{Decimal, le_decimal, exact_mul, num_digits}
use claim_ci.Value.{Fields, str, end, field}
use claim_ci.Models.{any_invalidates, any_insufficient}
use claim_ci.Config.{
  read, positive_number, present_scalar, missing_or_invalid_fields, compute_proxies, choose_basis,
  steps_batch, at_least_ratio, multiply_exact, compute_ratio_threshold,
}
use claim_ci.Config.Rules.{check_configs, compute_mismatch, evaluation_differs}
use claim_ci.Config.Gates.{check_configs-gates, check_configs-fair, incomplete, agrees, says_fair}
use claim_ci.Config.Ratio.{at_least_ratio-exact, multiply_exact-eq}
use claim_ci.Config.Complete.{choose_basis_complete, compute_mismatch-Declares, Declares}
use claim_ci.Examples.Inputs.{wholes, training}

abbrev short : Fields
short = training 100

abbrev long : Fields
long = training 150

-- A config that names nothing but its model.
abbrev bare : Fields
bare = field (str "model") (str "small") end

check_configs-gates_example :
    (any_invalidates (check_configs wholes short long)
      ≡ (compute_mismatch wholes short long || evaluation_differs wholes short long))
    × (any_insufficient (check_configs wholes short long) ≡ incomplete wholes short long)
check_configs-gates_example = check_configs-gates wholes short long

check_configs-fair_example :
    any (says_fair wholes short bare) (check_configs wholes short bare) ≡ agrees wholes short bare
check_configs-fair_example = check_configs-fair wholes short bare

short_complete : is_empty (missing_or_invalid_fields wholes short) ≡ true
unfolding missing_or_invalid_fields positive_number read present_scalar
short_complete = refl

long_complete : is_empty (missing_or_invalid_fields wholes long) ≡ true
unfolding missing_or_invalid_fields positive_number read present_scalar
long_complete = refl

choose_basis_complete_example :
    choose_basis (compute_proxies wholes short) (compute_proxies wholes long) ≡ some steps_batch
choose_basis_complete_example = choose_basis_complete wholes short long short_complete long_complete

short_steps : Declares short "training_steps" 100
unfolding read num_digits
short_steps = (refl, omega arith, omega arith)

short_batch : Declares short "batch_size" 8
unfolding read num_digits
short_batch = (refl, omega arith, omega arith)

long_steps : Declares long "training_steps" 150
unfolding read num_digits
long_steps = (refl, omega arith, omega arith)

long_batch : Declares long "batch_size" 8
unfolding read num_digits
long_batch = (refl, omega arith, omega arith)

-- 150 steps are exactly one and a half times 100, which the rule takes for a mismatch.
compute_mismatch-Declares_example :
    compute_mismatch wholes short long ≡ leb (3 * (100 * 8)) (2 * (150 * 8))
compute_mismatch-Declares_example =
    compute_mismatch-Declares wholes short long 100 8 150 8 short_steps short_batch long_steps
      long_batch

abbrev hundredths : Decimal
hundredths = record { negative = false; coefficient = 151; exponent = negsuc 1 }

abbrev one : Decimal
one = record { negative = false; coefficient = 1; exponent = pos 0 }

at_least_ratio-exact_example :
    at_least_ratio hundredths one compute_ratio_threshold
    ≡ le_decimal (multiply_exact compute_ratio_threshold one) hundredths
at_least_ratio-exact_example =
    at_least_ratio-exact hundredths one compute_ratio_threshold refl refl refl

multiply_exact-eq_example : multiply_exact hundredths hundredths ≡ exact_mul hundredths hundredths
multiply_exact-eq_example = multiply_exact-eq hundredths hundredths
