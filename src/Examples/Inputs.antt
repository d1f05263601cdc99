-- ===== src/Examples/Inputs.antt =====
-- A file system whose files hold their own names, with a pair of runs that differ in their mean.
use claim_ci.Prelude.{
  ℕ, zero, suc, ◌*◌, ◌/◌, ◌^◌, Bool, true, false, Option, none, some, List, [], ◌∷◌, String, str_eq,
  starts_with, if◌then◌else◌,
}
use claim_ci.Prelude.Int.{ℤ, pos, negsuc, pos_part, neg_part}
use claim_ci.Decimal.{Decimal}
use claim_ci.Floats.{Floats}
use claim_ci.Value.{Float, finite, Value, Fields, int, str, mapping, end, field}
use claim_ci.Parsing.{Raw, array, object, stop, next, close, member}
use claim_ci.Parsing.Graph.{Children, leaf}
use claim_ci.World.{World, Reading}
use claim_ci.Audit.Paths.{Paths}

abbrev pub whole : ℤ → Decimal
whole (pos n) = record { negative = false; coefficient = n; exponent = pos 0 }
whole (negsuc n) = record { negative = true; coefficient = suc n; exponent = pos 0 }

abbrev pub signed : Bool → ℕ → Float
signed false n = finite (pos n) (pos 0)
signed true zero = finite (pos 0) (pos 0)
signed true (suc n) = finite (negsuc n) (pos 0)

abbrev pub first_of : List Float → Option Float
first_of [] = none
first_of (x ∷ xs) = some x

-- Floats that are whole numbers.
abbrev pub wholes : Floats
wholes = record {
  spelling = λ m e. whole m;
  of_decimal = λ d.
      signed d.negative ((d.coefficient * 10 ^ pos_part d.exponent) / 10 ^ neg_part d.exponent);
  of_int = λ n. some (finite n (pos 0));
  fmean = first_of;
  stdev = first_of;
}

abbrev pub experiment : String → String → Fields
experiment results train = field (str "config") (str "config") (
    field (str "results") (str results)
      (field (str "train_dataset") (str train) (field (str "eval_dataset") (str "eval") end)))

abbrev pub manifest : Fields
manifest =
    field (str "claim")
      (mapping (
        field (str "metric") (str " score ") (field (str "minimum_improvement") (int (pos 2)) end)))
      (field (str "baseline") (mapping (experiment "before" "train"))
        (field (str "candidate") (mapping (experiment "after" "train")) end))

abbrev pub dataset_fields : Fields
dataset_fields = field (str "identifier") (str "corpus") (field (str "version") (str "1") end)

abbrev pub evaluation_fields : Fields
evaluation_fields =
    field (str "dataset_identifier") (str "corpus")
      (field (str "dataset_version") (str "1") (field (str "split") (str "test") end))

-- A config that trains for a number of steps.
abbrev pub training : ℕ → Fields
training steps = field (str "training_steps") (int (pos steps)) (
    field (str "epochs") (int (pos 3)) (
      field (str "batch_size") (int (pos 8)) (
        field (str "dataset") (mapping dataset_fields) (
          field (str "evaluation") (mapping evaluation_fields)
            (field (str "model") (str "small") (field (str "learning_rate") (int (pos 1)) end))))))

abbrev pub scalars : Children
scalars i = []

abbrev pub tree : Value → Reading
tree v = Reading.loaded (record { children = scalars; root = leaf; value = v })

abbrev pub run : ℕ → ℕ → Raw
run score seed =
    object (member "score" (Raw.int (pos score)) (member "seed" (Raw.int (pos seed)) close))

abbrev pub two_runs : ℕ → Raw
two_runs score = object (member "runs" (array (next (run score 1) (next (run score 2) stop))) close)

abbrev pub yaml : String → Reading
yaml text =
    if str_eq text "manifest"
    then tree (mapping manifest)
    else if str_eq text "config"
    then tree (mapping (training 100))
    else Reading.refused

abbrev pub json : String → Option Raw
json text =
    if str_eq text "before"
    then some (two_runs 10)
    else if str_eq text "after"
    then some (two_runs 13)
    else some (Raw.str text)

abbrev pub digest : Value → Option String
digest (str s) = some s
digest _ = none

-- Every file holds its own name.
abbrev pub disk : World
disk = record {
  floats = wholes;
  read_text = λ path. some path;
  exists = λ path. some true;
  resolve = λ path. some path;
  read_json = json;
  read_yaml = yaml;
  hash_sample = digest;
}

-- The same, but a record of the training split leaks into the evaluation split.
abbrev pub leaky : World
leaky = record disk { hash_sample = λ v. some "one" }

abbrev pub flat : Paths
flat = record {
  is_absolute = λ path. false;
  is_posix_absolute = λ path. starts_with path "/";
  is_windows_absolute = λ path. false;
  join = λ directory path. path;
  parent = λ path. "";
  is_within = λ path root. true;
}
