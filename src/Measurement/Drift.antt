-- ===== src/Measurement/Drift.antt =====
-- `_component_state` and `compare_measurement_protocols` of claimci/measurement.py.
use claim_ci.Prelude.{
  Bool, true, false, not, ◌&&◌, ◌||◌, leb, is_empty, is_some, all, any, keep, Option, none, some,
  List, [], ◌∷◌, map, String, str_eq, starts_with, repeats, member, distinct, length, if◌then◌else◌,
}
use claim_ci.Counter.{sorted}
use claim_ci.Measurement.{
  MeasurementComponentKind, rank, eq_kind, all_kinds, is_byte_only, is_missing, is_not_applicable,
  is_canonical_id, MeasurementProtocolComponent, MeasurementProtocolPair,
}

pub data MeasurementDriftState : Type 0 where
  verified : MeasurementDriftState
  warning : MeasurementDriftState
  insufficient : MeasurementDriftState
  invalidates : MeasurementDriftState
  not_assessed : MeasurementDriftState

abbrev pub eq_state : MeasurementDriftState → MeasurementDriftState → Bool
eq_state MeasurementDriftState.verified MeasurementDriftState.verified = true
eq_state MeasurementDriftState.warning MeasurementDriftState.warning = true
eq_state MeasurementDriftState.insufficient MeasurementDriftState.insufficient = true
eq_state MeasurementDriftState.invalidates MeasurementDriftState.invalidates = true
eq_state MeasurementDriftState.not_assessed MeasurementDriftState.not_assessed = true
eq_state _ _ = false

pub data ClaimCiVerificationReduction : Type 0 where
  arithmetic_mean_v1 : ClaimCiVerificationReduction
  not_applicable : ClaimCiVerificationReduction

pub record MeasurementDriftFinding : Type 0 where
  pub component_kind : MeasurementComponentKind
  pub state : MeasurementDriftState
  pub reason_code : String
  pub baseline_component_id : Option String
  pub candidate_component_id : Option String
  pub native_rule_ids : List String

abbrev accepted_id : Option String → Bool
accepted_id none = true
accepted_id (some id) = is_canonical_id id

-- `MeasurementDriftFinding.__post_init__` accepts.
unfoldable pub finding_accepted : MeasurementDriftFinding → Bool
unfolding is_canonical_id repeats
finding_accepted f =
    is_canonical_id f.reason_code
    && accepted_id f.baseline_component_id
    && accepted_id f.candidate_component_id
    && leb (length f.native_rule_ids) 8
    && all is_canonical_id f.native_rule_ids
    && not (repeats f.native_rule_ids)

abbrev pub component_id : Option MeasurementProtocolComponent → Option String
component_id none = none
component_id (some c) = some c.semantic_component_id

-- The rules on missing or invalid inputs.
abbrev pub is_insufficient_rule : String → Bool
is_insufficient_rule rule_id =
    str_eq rule_id "CONFIG.MISSING_FIELDS"
    || str_eq rule_id "BENCHMARK.PROCEDURE_INSUFFICIENT"
    || starts_with rule_id "DATASET.MISSING"
    || starts_with rule_id "DATASET.INVALID"

-- `candidates`, the rules that decide on a difference of this kind
unfoldable pub invalidating_rules : MeasurementComponentKind → List String
invalidating_rules MeasurementComponentKind.evaluation_dataset =
    "DATASET.EVALUATION_MISMATCH" ∷ "CONFIG.EVALUATION_MISMATCH" ∷ "BENCHMARK.WORKLOAD_MISMATCH"
    ∷ []
invalidating_rules MeasurementComponentKind.metric =
    "CONFIG.EVALUATION_MISMATCH" ∷ "BENCHMARK.METRIC_MISMATCH" ∷ []
invalidating_rules _ = "CONFIG.EVALUATION_MISMATCH" ∷ "BENCHMARK.CONFIG_MISMATCH" ∷ []

-- `sorted(native_rule_ids & candidates)`
unfoldable pub invalidating : MeasurementComponentKind → List String → List String
unfolding sorted invalidating_rules
invalidating kind rule_ids = sorted (keep (λ id. member id (invalidating_rules kind)) rule_ids)

unfoldable pub insufficient_rules : List String → List String
unfolding sorted
insufficient_rules rule_ids = sorted (keep is_insufficient_rule rule_ids)

unfoldable pub eq_ids : List String → List String → Bool
eq_ids [] [] = true
eq_ids [] (y ∷ ys) = false
eq_ids (x ∷ xs) [] = false
eq_ids (x ∷ xs) (y ∷ ys) = str_eq x y && eq_ids xs ys

-- The finding on a kind whose components are both there.
unfoldable pub compared_drift :
    MeasurementComponentKind
    → MeasurementProtocolComponent
    → MeasurementProtocolComponent
    → List String
    → MeasurementDriftFinding
unfolding invalidating insufficient_rules eq_ids
compared_drift kind b c rule_ids =
    let made : MeasurementDriftState → String → List String → MeasurementDriftFinding =
      λ state reason rules. record {
        component_kind = kind;
        state = state;
        reason_code = reason;
        baseline_component_id = some b.semantic_component_id;
        candidate_component_id = some c.semantic_component_id;
        native_rule_ids = rules;
      } in
    if is_not_applicable b.coverage && is_not_applicable c.coverage
    then made MeasurementDriftState.not_assessed "optional_component_not_represented" []
    else if is_missing b.coverage || is_missing c.coverage
    then made MeasurementDriftState.insufficient "required_component_not_recovered"
        (insufficient_rules rule_ids)
    else if is_byte_only b.coverage || is_byte_only c.coverage
    then (if eq_ids b.source_binding_ids c.source_binding_ids
        then made MeasurementDriftState.not_assessed "byte_identity_only" []
        else made MeasurementDriftState.warning "source_snapshot_changed_without_semantic_recovery"
            [])
    else if str_eq b.semantic_component_id c.semantic_component_id
    then made MeasurementDriftState.verified "recovered_semantics_match" []
    else if not (is_empty (invalidating kind rule_ids))
    then made MeasurementDriftState.invalidates "recovered_measurement_semantics_differ"
        (invalidating kind rule_ids)
    else made MeasurementDriftState.insufficient "semantic_difference_has_no_native_comparison"
        (insufficient_rules rule_ids)

abbrev pub missing_drift :
    MeasurementComponentKind
    → Option MeasurementProtocolComponent
    → Option MeasurementProtocolComponent
    → MeasurementDriftFinding
missing_drift kind b c = record {
  component_kind = kind;
  state = MeasurementDriftState.insufficient;
  reason_code = "component_identity_missing";
  baseline_component_id = component_id b;
  candidate_component_id = component_id c;
  native_rule_ids = [];
}

-- `_component_state`, before the finding is checked
unfoldable pub component_state :
    MeasurementComponentKind
    → Option MeasurementProtocolComponent
    → Option MeasurementProtocolComponent
    → List String
    → MeasurementDriftFinding
unfolding compared_drift
component_state kind (some b) (some c) rule_ids = compared_drift kind b c rule_ids
component_state kind b c rule_ids = missing_drift kind b c

-- `{item.kind: item for item in components}.get(kind)`: a later item replaces an earlier one
unfoldable pub find_kind :
    MeasurementComponentKind
    → List MeasurementProtocolComponent
    → Option MeasurementProtocolComponent
unfolding rank
find_kind kind [] = none
find_kind kind (c ∷ components) =
    let later = find_kind kind components in
    if is_some later then later else if eq_kind c.kind kind then some c else none

pub record MeasurementDriftReport : Type 0 where
  pub state : MeasurementDriftState
  pub baseline_semantic_protocol_id : String
  pub candidate_semantic_protocol_id : String
  pub baseline_source_snapshot_id : String
  pub candidate_source_snapshot_id : String
  pub findings : List MeasurementDriftFinding
  pub claimci_verification_reduction : ClaimCiVerificationReduction

-- `state in states`
abbrev pub any_state : MeasurementDriftState → List MeasurementDriftFinding → Bool
any_state state = any (λ (f : MeasurementDriftFinding). eq_state state f.state)

unfoldable pub report_state : List MeasurementDriftFinding → MeasurementDriftState
report_state findings =
    if any_state MeasurementDriftState.invalidates findings
    then MeasurementDriftState.invalidates
    else if any_state MeasurementDriftState.insufficient findings
    then MeasurementDriftState.insufficient
    else if any_state MeasurementDriftState.warning findings
    then MeasurementDriftState.warning
    else if any_state MeasurementDriftState.verified findings
    then MeasurementDriftState.verified
    else MeasurementDriftState.not_assessed

-- `MeasurementDriftReport.__post_init__` accepts.
unfoldable pub report_accepted : MeasurementDriftReport → Bool
unfolding is_canonical_id
report_accepted r =
    is_canonical_id r.baseline_semantic_protocol_id
    && is_canonical_id r.candidate_semantic_protocol_id
    && is_canonical_id r.baseline_source_snapshot_id
    && is_canonical_id r.candidate_source_snapshot_id
    && leb (length r.findings) 10

-- The kinds of either side in the order of their values.
unfoldable pub kinds_of : MeasurementProtocolPair → List MeasurementComponentKind
unfolding find_kind
kinds_of pair =
    keep
      (λ kind.
        is_some (find_kind kind pair.baseline.components)
        || is_some (find_kind kind pair.candidate.components))
      all_kinds

unfoldable pub drift_findings : MeasurementProtocolPair → List String → List MeasurementDriftFinding
unfolding kinds_of component_state distinct find_kind
drift_findings pair native_rule_ids =
    map
      (λ kind.
        component_state kind (find_kind kind pair.baseline.components)
          (find_kind kind pair.candidate.components) (distinct native_rule_ids))
      (kinds_of pair)

unfoldable pub drift_report :
    MeasurementProtocolPair
    → List MeasurementDriftFinding
    → ClaimCiVerificationReduction
    → MeasurementDriftReport
unfolding report_state
drift_report pair findings reduction = record {
  state = report_state findings;
  baseline_semantic_protocol_id = pair.baseline.semantic_protocol_id;
  candidate_semantic_protocol_id = pair.candidate.semantic_protocol_id;
  baseline_source_snapshot_id = pair.baseline.source_snapshot_id;
  candidate_source_snapshot_id = pair.candidate.source_snapshot_id;
  findings = findings;
  claimci_verification_reduction = reduction;
}

-- `compare_measurement_protocols`
unfoldable pub compare_measurement_protocols :
    MeasurementProtocolPair
    → List String
    → ClaimCiVerificationReduction
    → Option MeasurementDriftReport
unfolding is_canonical_id drift_findings finding_accepted drift_report report_accepted
compare_measurement_protocols pair native_rule_ids reduction =
    let findings = drift_findings pair native_rule_ids in
    if leb (length native_rule_ids) 128
      && all is_canonical_id native_rule_ids
      && all finding_accepted findings
      && report_accepted (drift_report pair findings reduction)
    then some (drift_report pair findings reduction)
    else none
