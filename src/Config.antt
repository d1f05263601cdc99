-- ===== src/Config.antt =====
-- claimci/config_check.py: the fairness checks of two configs. `_MISSING` is `none`. The ratio and
-- the proxies stand in the evidence as decimals: `_evidence_number` chooses only how one is spelled.
mod Reading
pub mod Rules
pub mod Ratio
pub mod Gates
pub mod Complete
unfoldable pub use Reading.{
  read, decimal_number, positive_number, present_scalar, missing_or_invalid_fields,
  evaluation_mapping_complete,
}
use claim_ci.Prelude.{
  ℕ, zero, suc, ◌+◌, ◌*◌, ◌^◌, ◌≡◌, refl, Bool, true, false, not, ◌&&◌, ◌||◌, leb, max, Option,
  none, some, List, [], ◌∷◌, ◌++◌, when, is_some, String, if◌then◌else◌,
}
use claim_ci.Prelude.Int.{ℤ, pos, negsuc, pos_part, neg_part}
use claim_ci.Decimal.{Decimal, num_digits, mul, div}
use claim_ci.Floats.{Floats}
use claim_ci.Value.{Fields}

-- The names under which `_compute_proxies` files its products, in the order of preference.
pub data Basis : Type 0 where
  steps_batch steps epochs_batch epochs : Basis

unfoldable pub multiply_exact : Decimal → Decimal → Decimal
multiply_exact left right =
    mul (max 1 (num_digits left.coefficient + num_digits right.coefficient)) left right

unfoldable pub ratio_for_evidence : Decimal → Decimal → Decimal
ratio_for_evidence candidate baseline =
    div (max 50 (num_digits candidate.coefficient + num_digits baseline.coefficient + 10)) candidate
      baseline

abbrev pub both {ℓ} : {A : Type ℓ} → (A → A → A) → Option A → Option A → Option A
both f (some a) (some b) = some (f a b)
both f (some a) none = none
both f none _ = none

unfoldable pub compute_proxies : Floats → Fields → Basis → Option Decimal
compute_proxies fl config basis =
    let training_steps = positive_number fl (read config ("training_steps" ∷ [])) in
    let epoch_count = positive_number fl (read config ("epochs" ∷ [])) in
    let batch_size = positive_number fl (read config ("batch_size" ∷ [])) in
    elim basis [
      | steps_batch ↦ both multiply_exact training_steps batch_size
      | steps ↦ training_steps
      | epochs_batch ↦ both multiply_exact epoch_count batch_size
      | epochs ↦ epoch_count
    ]

-- `as_integer_ratio` of a decimal that is not negative, not brought to lowest terms: a common
-- factor scales both sides of the comparison below.
abbrev pub numerator : Decimal → ℕ
numerator d = d.coefficient * 10 ^ pos_part d.exponent

abbrev pub denominator : Decimal → ℕ
denominator d = 10 ^ neg_part d.exponent

unfoldable pub at_least_ratio : Decimal → Decimal → Decimal → Bool
at_least_ratio candidate baseline threshold =
    leb (numerator threshold * denominator candidate * numerator baseline)
      (numerator candidate * denominator baseline * denominator threshold)

-- `Decimal("1.5")`
abbrev pub compute_ratio_threshold : Decimal
compute_ratio_threshold = record { negative = false; coefficient = 15; exponent = negsuc 0 }

-- The first basis that both configs have.
unfoldable pub choose_basis : (Basis → Option Decimal) → (Basis → Option Decimal) → Option Basis
choose_basis baseline candidate =
    if is_some (baseline steps_batch) && is_some (candidate steps_batch)
    then some steps_batch
    else if is_some (baseline steps) && is_some (candidate steps)
    then some steps
    else if is_some (baseline epochs_batch) && is_some (candidate epochs_batch)
    then some epochs_batch
    else if is_some (baseline epochs) && is_some (candidate epochs)
    then some epochs
    else none
