-- ===== src/Measurement.antt =====
-- claimci/measurement.py: the identity of a measurement procedure, by components, and the comparison of
-- two of them. SHA-256 of a component and of a protocol is a parameter. `none` is a raised
-- MeasurementContractError.
pub mod Drift
mod Clashes
pub mod States
mod Insertion
pub mod Order
use claim_ci.Prelude.{
  ℕ, Bool, true, false, not, ◌&&◌, ◌||◌, ltb, leb, ◌==◌, is_empty, all, any, Option, none, some,
  List, [], ◌∷◌, map, String, str_eq, str_length, any_code, first_code, strip, repeats, member,
  length, if◌then◌else◌,
}
use claim_ci.Counter.{sorted}
use claim_ci.Counter.Ordered.{le}
use claim_ci.Value.{Value}

pub data MeasurementComponentKind : Type 0 where
  evaluator_implementation : MeasurementComponentKind
  metric : MeasurementComponentKind
  evaluation_dataset : MeasurementComponentKind
  evaluation_config : MeasurementComponentKind
  prompt_template : MeasurementComponentKind
  decoding_parameters : MeasurementComponentKind
  test_selection : MeasurementComponentKind
  retry_aggregation : MeasurementComponentKind
  normalization_postprocessing : MeasurementComponentKind
  benchmark_version : MeasurementComponentKind

pub data MeasurementComponentScope : Type 0 where
  measurement_procedure : MeasurementComponentScope
  system_under_test : MeasurementComponentScope
  unknown : MeasurementComponentScope

pub data MeasurementCoverage : Type 0 where
  recovered : MeasurementCoverage
  byte_only : MeasurementCoverage
  missing : MeasurementCoverage
  not_applicable : MeasurementCoverage

-- The position of a kind in the order of the kinds' values.
unfoldable pub rank : MeasurementComponentKind → ℕ
rank MeasurementComponentKind.benchmark_version = 0
rank MeasurementComponentKind.decoding_parameters = 1
rank MeasurementComponentKind.evaluation_config = 2
rank MeasurementComponentKind.evaluation_dataset = 3
rank MeasurementComponentKind.evaluator_implementation = 4
rank MeasurementComponentKind.metric = 5
rank MeasurementComponentKind.normalization_postprocessing = 6
rank MeasurementComponentKind.prompt_template = 7
rank MeasurementComponentKind.retry_aggregation = 8
rank MeasurementComponentKind.test_selection = 9

-- All kinds in that order.
abbrev pub all_kinds : List MeasurementComponentKind
all_kinds =
    MeasurementComponentKind.benchmark_version ∷ MeasurementComponentKind.decoding_parameters
    ∷ MeasurementComponentKind.evaluation_config ∷ MeasurementComponentKind.evaluation_dataset
    ∷ MeasurementComponentKind.evaluator_implementation ∷ MeasurementComponentKind.metric
    ∷ MeasurementComponentKind.normalization_postprocessing
    ∷ MeasurementComponentKind.prompt_template ∷ MeasurementComponentKind.retry_aggregation
    ∷ MeasurementComponentKind.test_selection ∷ []

abbrev pub eq_kind : MeasurementComponentKind → MeasurementComponentKind → Bool
eq_kind k l = rank k == rank l

-- `_COMPONENT_SCHEMA_IDS`
unfoldable pub component_schema_id : MeasurementComponentKind → String
component_schema_id MeasurementComponentKind.evaluator_implementation =
    "claimci.measurement.evaluator.v1"
component_schema_id MeasurementComponentKind.metric = "claimci.measurement.metric.v1"
component_schema_id MeasurementComponentKind.evaluation_dataset =
    "claimci.measurement.evaluation-dataset.v1"
component_schema_id MeasurementComponentKind.evaluation_config =
    "claimci.measurement.evaluation-config.v1"
component_schema_id MeasurementComponentKind.prompt_template =
    "claimci.measurement.prompt-template.v1"
component_schema_id MeasurementComponentKind.decoding_parameters = "claimci.measurement.decoding.v1"
component_schema_id MeasurementComponentKind.test_selection =
    "claimci.measurement.test-selection.v1"
component_schema_id MeasurementComponentKind.retry_aggregation =
    "claimci.measurement.retry-aggregation.v1"
component_schema_id MeasurementComponentKind.normalization_postprocessing =
    "claimci.measurement.normalization.v1"
component_schema_id MeasurementComponentKind.benchmark_version = "claimci.measurement.benchmark.v1"

-- `_bounded_text`, with `canonical=True`
unfoldable pub is_bounded_text : ℕ → String → Bool
unfolding strip
is_bounded_text maximum text =
    not (str_eq text "")
    && leb (str_length text) maximum
    && not (any_code (λ c. ltb c 32 || c == 127) text)
    && str_eq text (strip text)

abbrev pub is_alphanumeric : ℕ → Bool
is_alphanumeric c = (leb 48 c && leb c 57) || (leb 65 c && leb c 90) || (leb 97 c && leb c 122)

-- `[A-Za-z0-9._:/+-]`
abbrev pub is_id_code : ℕ → Bool
is_id_code c = is_alphanumeric c || c == 46 || c == 95 || c == 58 || c == 47 || c == 43 || c == 45

-- `_canonical_id` accepts.
unfoldable pub is_canonical_id : String → Bool
unfolding is_bounded_text
is_canonical_id text =
    is_bounded_text 256 text
    && first_code is_alphanumeric text
    && leb (str_length text) 256
    && not (any_code (λ c. not (is_id_code c)) text)

pub record MeasurementSemanticField : Type 0 where
  pub key : String
  pub value : Value

unfoldable pub insert_field :
    MeasurementSemanticField → List MeasurementSemanticField → List MeasurementSemanticField
unfolding le
insert_field f [] = f ∷ []
insert_field f (g ∷ fields) =
    let later = insert_field f fields in if le f.key g.key then f ∷ g ∷ fields else g ∷ later

-- `sorted(..., key=lambda item: item.key)`
unfoldable pub ordered_fields : List MeasurementSemanticField → List MeasurementSemanticField
unfolding insert_field
ordered_fields [] = []
ordered_fields (f ∷ fields) = insert_field f (ordered_fields fields)

pub record MeasurementProtocolComponent : Type 0 where
  pub kind : MeasurementComponentKind
  pub scope : MeasurementComponentScope
  pub coverage : MeasurementCoverage
  pub schema_id : String
  pub semantic_fields : List MeasurementSemanticField
  pub source_binding_ids : List String
  pub semantic_component_id : String

-- `_digest` of a component's and of a protocol's material
pub record Digests : Type 0 where
  pub component :
      MeasurementComponentKind
      → MeasurementComponentScope
      → MeasurementCoverage
      → String
      → List MeasurementSemanticField
      → String
  pub protocol : String → List (MeasurementComponentKind × String) → String

abbrev is_procedure : MeasurementComponentScope → Bool
is_procedure MeasurementComponentScope.measurement_procedure = true
is_procedure _ = false

abbrev pub is_recovered : MeasurementCoverage → Bool
is_recovered MeasurementCoverage.recovered = true
is_recovered _ = false

abbrev pub is_byte_only : MeasurementCoverage → Bool
is_byte_only MeasurementCoverage.byte_only = true
is_byte_only _ = false

abbrev pub is_missing : MeasurementCoverage → Bool
is_missing MeasurementCoverage.missing = true
is_missing _ = false

abbrev pub is_not_applicable : MeasurementCoverage → Bool
is_not_applicable MeasurementCoverage.not_applicable = true
is_not_applicable _ = false

-- The conditions of `MeasurementProtocolComponent.__post_init__`, in its order.
unfoldable pub component_accepted : MeasurementProtocolComponent → Bool
unfolding is_canonical_id component_schema_id repeats
component_accepted c =
    is_canonical_id c.schema_id
    && is_procedure c.scope
    && str_eq c.schema_id (component_schema_id c.kind)
    && leb (length c.semantic_fields) 32
    && not (repeats (map (λ (f : MeasurementSemanticField). f.key) c.semantic_fields))
    && leb (length c.source_binding_ids) 16
    && all is_canonical_id c.source_binding_ids
    && not (repeats c.source_binding_ids)
    && not (is_recovered c.coverage && is_empty c.semantic_fields)
    && not (not (is_recovered c.coverage) && not (is_empty c.semantic_fields))
    && not (is_byte_only c.coverage && is_empty c.source_binding_ids)

-- What `__post_init__` sets: both tuples in order, and the digest.
unfoldable pub protocol_component :
    Digests → MeasurementProtocolComponent → Option MeasurementProtocolComponent
unfolding component_accepted ordered_fields sorted
protocol_component d c =
    if component_accepted c
    then some (record c {
      semantic_fields = ordered_fields c.semantic_fields;
      source_binding_ids = sorted c.source_binding_ids;
      semantic_component_id =
          d.component c.kind c.scope c.coverage c.schema_id (ordered_fields c.semantic_fields);
    })
    else none

pub record MeasurementProtocolIdentity : Type 0 where
  pub semantic_protocol_id : String
  pub source_snapshot_id : String
  pub policy_id : String
  pub components : List MeasurementProtocolComponent

unfoldable pub insert_component :
    MeasurementProtocolComponent
    → List MeasurementProtocolComponent
    → List MeasurementProtocolComponent
unfolding rank
insert_component c [] = c ∷ []
insert_component c (d ∷ components) =
    let later = insert_component c components in
    if leb (rank c.kind) (rank d.kind) then c ∷ d ∷ components else d ∷ later

unfoldable pub ordered_components :
    List MeasurementProtocolComponent → List MeasurementProtocolComponent
unfolding insert_component
ordered_components [] = []
ordered_components (c ∷ components) = insert_component c (ordered_components components)

-- `len({item.kind for item in ordered}) != len(ordered)`
unfoldable pub repeats_kind : List MeasurementProtocolComponent → Bool
unfolding rank
repeats_kind [] = false
repeats_kind (c ∷ components) =
    any (λ (d : MeasurementProtocolComponent). eq_kind c.kind d.kind) components
    || repeats_kind components

-- A source snapshot as far as an identity reads it.
pub record SourceSnapshot : Type 0 where
  pub source_snapshot_id : String
  pub binding_ids : List String

abbrev component_entry : MeasurementProtocolComponent → MeasurementComponentKind × String
component_entry c = (c.kind, c.semantic_component_id)

-- `MeasurementProtocolIdentity.from_components`
unfoldable pub from_components :
    Digests
    → String
    → SourceSnapshot
    → List MeasurementProtocolComponent
    → Option MeasurementProtocolIdentity
unfolding is_canonical_id repeats_kind ordered_components
from_components d policy_id snapshot components =
    if is_canonical_id policy_id
      && not (is_empty components)
      && leb (length components) 10
      && not (repeats_kind (ordered_components components))
      && all
          (λ (c : MeasurementProtocolComponent).
            all (λ id. member id snapshot.binding_ids) c.source_binding_ids)
          (ordered_components components)
    then some (record {
      semantic_protocol_id =
          d.protocol policy_id (map component_entry (ordered_components components));
      source_snapshot_id = snapshot.source_snapshot_id;
      policy_id = policy_id;
      components = ordered_components components;
    })
    else none

pub record MeasurementProtocolPair : Type 0 where
  pub baseline : MeasurementProtocolIdentity
  pub candidate : MeasurementProtocolIdentity

-- `MeasurementProtocolPair.__post_init__`
unfoldable pub protocol_pair :
    MeasurementProtocolIdentity → MeasurementProtocolIdentity → Option MeasurementProtocolPair
protocol_pair baseline candidate =
    if str_eq baseline.policy_id candidate.policy_id
    then some (record { baseline = baseline; candidate = candidate })
    else none
