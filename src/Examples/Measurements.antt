-- ===== src/Examples/Measurements.antt =====
-- A comparison of two measurement protocols whose metrics differ, and a protocol
-- of two components.
use mathlib.Core.List.{Permᴰ}
use claim_ci.Prelude.{◌≡◌, ◌↔◌, refl, some, List, [], ◌∷◌, String}
use claim_ci.Value.{str}
use claim_ci.Measurement.{
  MeasurementComponentKind, MeasurementComponentScope, MeasurementCoverage,
  MeasurementProtocolComponent, MeasurementProtocolIdentity, MeasurementProtocolPair, Digests,
  SourceSnapshot, protocol_component, from_components,
}
use claim_ci.Measurement.Drift.{
  MeasurementDriftState, MeasurementDriftReport, ClaimCiVerificationReduction,
  compare_measurement_protocols,
}
use claim_ci.Measurement.Order.{from_components-Perm}
use claim_ci.Measurement.States.{Conflict, compare_measurement_protocols-Conflict}

-- The metric's name stands for its digest.
abbrev named : Digests
named = record {
  component = λ kind scope coverage schema fields. elim fields [
    | [] ↦ "none"
    | f ∷ rest ↦ elim f.value [ str s ↦ s | _ ↦ "other" ]
  ];
  protocol = λ policy components. elim components [ [] ↦ "none" | c ∷ rest ↦ c.1 ];
}

abbrev metric_component : String → MeasurementProtocolComponent
metric_component name = record {
  kind = MeasurementComponentKind.metric;
  scope = MeasurementComponentScope.measurement_procedure;
  coverage = MeasurementCoverage.recovered;
  schema_id = "claimci.measurement.metric.v1";
  semantic_fields = record { key = "name"; value = str name } ∷ [];
  source_binding_ids = [];
  semantic_component_id = name;
}

abbrev protocol : String → MeasurementProtocolIdentity
protocol name = record {
  semantic_protocol_id = name;
  source_snapshot_id = "snapshot";
  policy_id = "policy";
  components = metric_component name ∷ [];
}

from_metric :
    from_components named "policy"
      (record { source_snapshot_id = "snapshot"; binding_ids = [] })
      (metric_component "f1" ∷ [])
    ≡ some (protocol "f1")
unfolding from_components
from_metric = refl

sets_digest :
    protocol_component named (record (metric_component "f1") { semantic_component_id = "" })
    ≡ some (metric_component "f1")
unfolding protocol_component
sets_digest = refl

abbrev metrics : MeasurementProtocolPair
metrics = record { baseline = protocol "f1"; candidate = protocol "accuracy" }

abbrev reported : List String
reported = "BENCHMARK.METRIC_MISMATCH" ∷ []

abbrev drift : MeasurementDriftReport
drift = record {
  state = MeasurementDriftState.invalidates;
  baseline_semantic_protocol_id = "f1";
  candidate_semantic_protocol_id = "accuracy";
  baseline_source_snapshot_id = "snapshot";
  candidate_source_snapshot_id = "snapshot";
  findings =
      record {
        component_kind = MeasurementComponentKind.metric;
        state = MeasurementDriftState.invalidates;
        reason_code = "recovered_measurement_semantics_differ";
        baseline_component_id = some "f1";
        candidate_component_id = some "accuracy";
        native_rule_ids = reported;
      }
      ∷ [];
  claimci_verification_reduction = ClaimCiVerificationReduction.arithmetic_mean_v1;
}

compares :
    compare_measurement_protocols metrics reported ClaimCiVerificationReduction.arithmetic_mean_v1
    ≡ some drift
unfolding compare_measurement_protocols
compares = refl

compare_measurement_protocols-Conflict_example :
    (drift.state ≡ MeasurementDriftState.invalidates)
    ↔ ((kind : MeasurementComponentKind) × Conflict metrics reported kind)
compare_measurement_protocols-Conflict_example =
    compare_measurement_protocols-Conflict metrics reported
      ClaimCiVerificationReduction.arithmetic_mean_v1 drift compares

abbrev version_component : MeasurementProtocolComponent
version_component = record {
  kind = MeasurementComponentKind.benchmark_version;
  scope = MeasurementComponentScope.measurement_procedure;
  coverage = MeasurementCoverage.recovered;
  schema_id = "claimci.measurement.benchmark.v1";
  semantic_fields = record { key = "version"; value = str "2" } ∷ [];
  source_binding_ids = [];
  semantic_component_id = "v2";
}

abbrev snapshot : SourceSnapshot
snapshot = record { source_snapshot_id = "snapshot"; binding_ids = [] }

abbrev versioned : MeasurementProtocolIdentity
versioned = record {
  semantic_protocol_id = "v2";
  source_snapshot_id = "snapshot";
  policy_id = "policy";
  components = version_component ∷ metric_component "f1" ∷ [];
}

-- The version's kind comes first in the order of the kinds.
reorders :
    from_components named "policy" snapshot (metric_component "f1" ∷ version_component ∷ [])
    ≡ some versioned
unfolding from_components
reorders = refl

from_components-Perm_example :
    from_components named "policy" snapshot (metric_component "f1" ∷ version_component ∷ [])
    ≡ from_components named "policy" snapshot (version_component ∷ metric_component "f1" ∷ [])
from_components-Perm_example = from_components-Perm named "policy" snapshot (Permᴰ.swap refl refl)
