-- ===== src/Examples/Records.antt =====
-- Documents, objects and datasets.
use claim_ci.Prelude.{
  ℕ, zero, suc, ◌+◌, ◌≤◌, ◌<◌, ◌≡◌, ◌↔◌, refl, false, leb, List, [], ◌∷◌, String, length,
  if◌then◌else◌,
}
use claim_ci.Value.{Value, null, list, nil, item}
use claim_ci.Models.{ok, err, malformed, DatasetHashes, any_invalidates, any_insufficient}
use claim_ci.Parsing.{validate_json_graph, unique_json_object, max_nesting_depth, load_json}
use claim_ci.Parsing.Unique.{Pair, distinct_keys, to_fields, unique_json_object-eq}
use claim_ci.Parsing.Depth.{height, validate_json_graph-height}
use claim_ci.Parsing.Graph.{leaf, container, Children, validate_yaml_graph}
use claim_ci.Parsing.Graph.Forest.{AllIn, IsOrdered, edges, references, validate_yaml_graph-tree}
use claim_ci.Parsing.Graph.Acyclic.{Inside, validate_yaml_graph-acyclic}
use claim_ci.Dataset.{
  overlap_summary, check_dataset_leakage, check_evaluation_alignment, sides, load_dataset,
  hash_line,
}
use claim_ci.Dataset.Leakage.{IsApart, check_dataset_leakage-IsApart, overlap_summary-le}
use claim_ci.Dataset.Alignment.{SameRecords, check_evaluation_alignment-SameRecords, sides_add_up}
use claim_ci.Dataset.Loading.{Loaded, load_dataset-Loaded}
use claim_ci.Examples.Inputs.{disk}

abbrev nested : Value
nested = list (item null (item (list nil) nil))

validate_json_graph-height_example :
    validate_json_graph nested
    ≡ (if leb (height nested) max_nesting_depth then ok tt else err malformed)
validate_json_graph-height_example = validate_json_graph-height nested

abbrev repeated : List Pair
repeated = ("a", null) ∷ ("b", null) ∷ ("a", nested) ∷ []

unique_json_object-eq_example :
    unique_json_object repeated
    ≡ (if distinct_keys repeated then ok (to_fields repeated) else err malformed)
unique_json_object-eq_example = unique_json_object-eq repeated

abbrev forked : List ℕ
forked = 0 ∷ 2 ∷ 1 ∷ []

-- A container with two others below it.
abbrev fork : Children
fork zero = leaf ∷ container 1 ∷ leaf ∷ container 2 ∷ []
fork (suc i) = []

fork_accepted : validate_yaml_graph fork (container 0) ≡ ok forked
unfolding validate_yaml_graph
fork_accepted = refl

validate_yaml_graph-tree_example :
    IsOrdered fork forked
    × AllIn (container 0 ∷ []) forked
    × (length forked ≡ edges fork forked + references (container 0 ∷ []))
validate_yaml_graph-tree_example = validate_yaml_graph-tree fork (container 0) forked fork_accepted

validate_yaml_graph-acyclic_example : ¬ Inside fork 0 0
validate_yaml_graph-acyclic_example =
    validate_yaml_graph-acyclic fork (container 0) forked 0 fork_accepted refl

abbrev dataset : List String → DatasetHashes
dataset hashes = record { path = "data.jsonl"; hashes = hashes }

abbrev train : DatasetHashes
train = dataset ("p" ∷ "q" ∷ "q" ∷ [])

abbrev eval : DatasetHashes
eval = dataset ("q" ∷ "r" ∷ [])

check_dataset_leakage-IsApart_example :
    ((any_invalidates (check_dataset_leakage "baseline" train eval).1 ≡ false)
      ↔ IsApart train.hashes eval.hashes)
    × (any_insufficient (check_dataset_leakage "baseline" train eval).1 ≡ false)
check_dataset_leakage-IsApart_example = check_dataset_leakage-IsApart "baseline" train eval

overlap_summary-le_example :
    ((overlap_summary "baseline" train eval).overlap_count ≤ length train.hashes)
    × ((overlap_summary "baseline" train eval).overlap_count ≤ length eval.hashes)
    × ((overlap_summary "baseline" train eval).overlap_rate.0
        ≤ (overlap_summary "baseline" train eval).overlap_rate.1)
    × (0 < (overlap_summary "baseline" train eval).overlap_rate.1)
overlap_summary-le_example = overlap_summary-le "baseline" train eval

check_evaluation_alignment-SameRecords_example :
    ((any_invalidates (check_evaluation_alignment eval train) ≡ false)
      ↔ SameRecords eval.hashes train.hashes)
    × (any_insufficient (check_evaluation_alignment eval train) ≡ false)
check_evaluation_alignment-SameRecords_example = check_evaluation_alignment-SameRecords eval train

sides_add_up_example :
    ((sides eval train).matching_count + (sides eval train).baseline_only_count
      ≡ length eval.hashes)
    × ((sides eval train).matching_count + (sides eval train).candidate_only_count
        ≡ length train.hashes)
sides_add_up_example = sides_add_up eval train

dataset_of_disk : (d : DatasetHashes) × (load_dataset disk "train" ≡ ok d)
unfolding load_dataset hash_line load_json
dataset_of_disk = (_, refl)

load_dataset-Loaded_example : Loaded disk "train" dataset_of_disk.0
load_dataset-Loaded_example = load_dataset-Loaded disk "train" dataset_of_disk.0 dataset_of_disk.1
