-- ===== src/Config/Reading.antt =====
-- Reading a config: paths, positive numbers, scalars that are present, and complete configs.
use claim_ci.Prelude.{
  ℕ, Bool, true, false, not, leb, Option, none, some, List, [], ◌∷◌, ◌++◌, when, all, is_some,
  String, str_eq, strip, if◌then◌else◌,
}
use claim_ci.Prelude.Int.{ℤ, pos, negsuc, neg_part}
use claim_ci.Decimal.{Decimal, num_digits, is_positive}
use claim_ci.Floats.{Floats}
use claim_ci.Value.{finite, Value, Fields, null, bool, int, float, str, mapping, get}

-- `_value` below a value
unfoldable pub read_value : Value → List String → Option Value
unfolding get
read_value current [] = some current
read_value (mapping f) (part ∷ path) = elim (get part f) [
  | none ↦ none
  | some next ↦ read_value next path
]
read_value _ (part ∷ path) = none

-- `_value(config, *path)`
unfoldable pub read : Fields → List String → Option Value
unfolding read_value
read config path = read_value (mapping config) path

-- `str(n)` raises `ValueError` past 4300 digits.
abbrev pub int_max_str_digits : ℕ
int_max_str_digits = 4300

unfoldable pub of_integer : ℤ → Option Decimal
unfolding num_digits
of_integer (pos n) =
    if leb (num_digits n) int_max_str_digits
    then some (record { negative = false; coefficient = n; exponent = pos 0 })
    else none
of_integer (negsuc n) =
    if leb (num_digits (neg_part (negsuc n))) int_max_str_digits
    then some (record { negative = true; coefficient = neg_part (negsuc n); exponent = pos 0 })
    else none

unfoldable pub decimal_number : Floats → Value → Option Decimal
unfolding of_integer
decimal_number fl (int n) = of_integer n
decimal_number fl (float (finite m e)) = some (fl.spelling m e)
decimal_number fl v = none

abbrev pub if_positive : Option Decimal → Option Decimal
if_positive none = none
if_positive (some d) = if is_positive d then some d else none

unfoldable pub positive_number : Floats → Option Value → Option Decimal
unfolding decimal_number
positive_number fl none = none
positive_number fl (some v) = if_positive (decimal_number fl v)

unfoldable pub present_scalar : Floats → Option Value → Bool
unfolding decimal_number strip
present_scalar fl none = false
present_scalar fl (some null) = false
present_scalar fl (some (bool b)) = false
present_scalar fl (some (str s)) = not (str_eq (strip s) "")
present_scalar fl (some v) = is_some (decimal_number fl v)

unfoldable pub number_issue : Floats → Fields → String → List String
number_issue fl config field =
    when (not (is_some (positive_number fl (read config (field ∷ []))))) (field ∷ [])

unfoldable pub scalar_issue : Floats → Fields → List String → String → List String
scalar_issue fl config path name = when (not (present_scalar fl (read config path))) (name ∷ [])

-- The names of the documented fields that are absent or invalid, in order.
unfoldable pub missing_or_invalid_fields : Floats → Fields → List String
unfolding number_issue scalar_issue
missing_or_invalid_fields fl config =
    number_issue fl config "training_steps"
    ++ (number_issue fl config "epochs"
        ++ (number_issue fl config "batch_size"
            ++ (scalar_issue fl config ("dataset" ∷ "identifier" ∷ []) "dataset.identifier"
                ++ (scalar_issue fl config ("dataset" ∷ "version" ∷ []) "dataset.version"
                    ++ (scalar_issue fl config ("evaluation" ∷ "dataset_identifier" ∷ [])
                          "evaluation.dataset_identifier"
                        ++ (scalar_issue fl config ("evaluation" ∷ "dataset_version" ∷ [])
                              "evaluation.dataset_version"
                            ++ (scalar_issue fl config ("evaluation" ∷ "split" ∷ [])
                                  "evaluation.split"
                                ++ (scalar_issue fl config ("model" ∷ []) "model"
                                    ++ number_issue fl config "learning_rate"))))))))

-- The entries of a mapping; `none` where the value is missing or no mapping.
abbrev pub nested_fields : Option Value → Option Fields
nested_fields (some (mapping f)) = some f
nested_fields _ = none

unfoldable pub evaluation_fields_present : Floats → Option Fields → Bool
evaluation_fields_present fl none = false
evaluation_fields_present fl (some f) =
    all (λ name. present_scalar fl (get name f))
      ("dataset_identifier" ∷ "dataset_version" ∷ "split" ∷ [])

unfoldable pub evaluation_mapping_complete : Floats → Fields → Bool
unfolding evaluation_fields_present read
evaluation_mapping_complete fl config =
    evaluation_fields_present fl (nested_fields (read config ("evaluation" ∷ [])))
