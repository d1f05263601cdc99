-- ===== src/Measurement/States.antt =====
-- When a comparison of measurement protocols invalidates.
use claim_ci.Prelude.{
  ◌≡◌, ◌≢◌, ◌↔◌, refl, ◌∙◌, sym, subst, Bool, true, false, ◌&&◌, ◌||◌, is_empty, is_some, any, keep,
  Option, none, some, List, [], ◌∷◌, map, String, str_eq, eq_iff, member, distinct, arith,
  if◌then◌else◌, Bool-cases, inl, inr,
}
use claim_ci.Prelude.Optional.{some-injective}
use claim_ci.Measurement.{
  is_recovered, is_not_applicable, is_missing, is_byte_only, MeasurementComponentKind, all_kinds,
  MeasurementProtocolComponent, MeasurementProtocolPair,
}
use claim_ci.Measurement.Drift.{
  MeasurementDriftState, MeasurementDriftFinding, MeasurementDriftReport,
  ClaimCiVerificationReduction, component_state, find_kind, kinds_of, drift_findings, drift_report,
  report_state, compare_measurement_protocols, invalidating, invalidating_rules,
}
use claim_ci.Measurement.Clashes.{
  is_invalidating, clashes, component_state-clashes, decided, settled, recovered, settled_pair,
}

-- A kind of component that both protocols have, each recovered or not applicable and not both of them
-- not applicable, with different meanings, and a native finding that decides on it.
pub record Conflict (pair : MeasurementProtocolPair) (rule_ids : List String)
    (kind : MeasurementComponentKind) : Type 0 where
  pub baseline : MeasurementProtocolComponent
  pub candidate : MeasurementProtocolComponent
  pub found_baseline : find_kind kind pair.baseline.components ≡ some baseline
  pub found_candidate : find_kind kind pair.candidate.components ≡ some candidate
  pub settled_baseline :
      (is_recovered baseline.coverage || is_not_applicable baseline.coverage) ≡ true
  pub settled_candidate :
      (is_recovered candidate.coverage || is_not_applicable candidate.coverage) ≡ true
  pub represented : (is_recovered baseline.coverage || is_recovered candidate.coverage) ≡ true
  pub differ : baseline.semantic_component_id ≢ candidate.semantic_component_id
  pub rule : String
  pub native : member rule rule_ids ≡ true
  pub decides : member rule (invalidating_rules kind) ≡ true

clashes-Conflict :
    (pair : MeasurementProtocolPair) (rule_ids : List String) (kind : MeasurementComponentKind)
    → clashes kind
        (distinct rule_ids)
        (find_kind kind pair.baseline.components)
        (find_kind kind pair.candidate.components)
      ≡ true
    → Conflict pair rule_ids kind
clashes-Conflict pair rule_ids kind h =
    go (find_kind kind pair.baseline.components) (find_kind kind pair.candidate.components) refl
      refl h
  where
    go :
        (b c : Option MeasurementProtocolComponent)
        → find_kind kind pair.baseline.components ≡ b
        → find_kind kind pair.candidate.components ≡ c
        → clashes kind (distinct rule_ids) b c ≡ true
        → Conflict pair rule_ids kind
    go (some b) (some c) eb ec e =
        let split : ((is_not_applicable b.coverage && is_not_applicable c.coverage) ≡ false)
            × (is_missing b.coverage ≡ false)
            × (is_missing c.coverage ≡ false)
            × (is_byte_only b.coverage ≡ false)
            × (is_byte_only c.coverage ≡ false)
            × (str_eq b.semantic_component_id c.semantic_component_id ≡ false)
            × (is_empty (invalidating kind (distinct rule_ids)) ≡ false) =
          unfold clashes in ground arith in
        let (na, mb, mc, bb, bc, ids, rules) = split in
        let (rule, native, decides) = (decided kind rule_ids).0 rules in
        record {
          baseline = b;
          candidate = c;
          found_baseline = eb;
          found_candidate = ec;
          settled_baseline = ground (arith, settled b.coverage, mb, bb);
          settled_candidate = ground (arith, settled c.coverage, mc, bc);
          represented =
              ground (arith, recovered b.coverage, recovered c.coverage, na, mb, mc, bb, bc);
          differ = λ same. ground (arith, eq_iff b.semantic_component_id c.semantic_component_id);
          rule = rule;
          native = native;
          decides = decides;
        }
    go none none eb ec e = unfold clashes in cc
    go none (some c) eb ec e = unfold clashes in cc
    go (some b) none eb ec e = unfold clashes in cc

Conflict-clashes :
    (pair : MeasurementProtocolPair) (rule_ids : List String) (kind : MeasurementComponentKind)
    → Conflict pair rule_ids kind
    → clashes kind
        (distinct rule_ids)
        (find_kind kind pair.baseline.components)
        (find_kind kind pair.candidate.components)
      ≡ true
Conflict-clashes pair rule_ids kind x =
    let rules = (decided kind rule_ids).1 (x.rule, x.native, x.decides) in
    let apart : str_eq x.baseline.semantic_component_id x.candidate.semantic_component_id ≡ false =
      ground (
        arith,
        eq_iff x.baseline.semantic_component_id x.candidate.semantic_component_id,
        x.differ,
      ) in
    rw (x.found_baseline, x.found_candidate)
      (unfold clashes in
        ground (
          arith,
          rules,
          apart,
          settled_pair x.baseline.coverage x.candidate.coverage x.settled_baseline
              x.settled_candidate x.represented,
        ))

-- A test that some kind passes is passed by one in the list of all kinds.
every_kind :
    (p : MeasurementComponentKind → Bool) (kind : MeasurementComponentKind)
    → p kind ≡ true
    → any p all_kinds ≡ true
every_kind p MeasurementComponentKind.evaluator_implementation h = ground (arith, h)
every_kind p MeasurementComponentKind.metric h = ground (arith, h)
every_kind p MeasurementComponentKind.evaluation_dataset h = ground (arith, h)
every_kind p MeasurementComponentKind.evaluation_config h = ground (arith, h)
every_kind p MeasurementComponentKind.prompt_template h = ground (arith, h)
every_kind p MeasurementComponentKind.decoding_parameters h = ground (arith, h)
every_kind p MeasurementComponentKind.test_selection h = ground (arith, h)
every_kind p MeasurementComponentKind.retry_aggregation h = ground (arith, h)
every_kind p MeasurementComponentKind.normalization_postprocessing h = ground (arith, h)
every_kind p MeasurementComponentKind.benchmark_version h = ground (arith, h)

any_found :
    (p : MeasurementComponentKind → Bool) (kinds : List MeasurementComponentKind)
    → any p kinds ≡ true
    → (kind : MeasurementComponentKind) × (p kind ≡ true)
any_found p [] h = cc
any_found p (k ∷ kinds) h = elim (Bool-cases (p k)) [
  | inl e ↦ (k, e)
  | inr e ↦ any_found p kinds (ground (arith, e))
]

any_kept :
    (p q : MeasurementComponentKind → Bool) (kinds : List MeasurementComponentKind)
    → ((k : MeasurementComponentKind) → p k ≡ true → q k ≡ true)
    → any p (keep q kinds) ≡ any p kinds
any_kept p q [] h = refl
any_kept p q (k ∷ kinds) h = elim (Bool-cases (q k)) [
  | inl e ↦ rw (e, any_kept p q kinds h) refl
  | inr e ↦
      let absent : p k ≡ false = ground (arith, h k, e) in rw (e, absent, any_kept p q kinds h) refl
]

any-map :
    (f : MeasurementComponentKind → MeasurementDriftFinding) (kinds : List MeasurementComponentKind)
    → any is_invalidating (map f kinds) ≡ any (λ k. is_invalidating (f k)) kinds
any-map f [] = refl
any-map f (k ∷ kinds) = rw (any-map f kinds)

report_state-invalidates :
    (findings : List MeasurementDriftFinding)
    → (report_state findings ≡ MeasurementDriftState.invalidates)
      ↔ (any is_invalidating findings ≡ true)
unfolding report_state is_invalidating
report_state-invalidates findings = ground arith

findings-clash :
    (pair : MeasurementProtocolPair) (rule_ids : List String)
    → any is_invalidating (drift_findings pair rule_ids)
      ≡ any
          (λ k.
            clashes k
              (distinct rule_ids)
              (find_kind k pair.baseline.components)
              (find_kind k pair.candidate.components))
          (kinds_of pair)
unfolding drift_findings
findings-clash pair rule_ids = any-map _ (kinds_of pair) ∙ any_same (kinds_of pair)
  where
    any_same :
        (kinds : List MeasurementComponentKind)
        → any
            (λ k. is_invalidating (
              component_state k
                (find_kind k pair.baseline.components)
                (find_kind k pair.candidate.components)
                (distinct rule_ids)))
            kinds
          ≡ any
              (λ k.
                clashes k
                  (distinct rule_ids)
                  (find_kind k pair.baseline.components)
                  (find_kind k pair.candidate.components))
              kinds
    any_same [] = refl
    any_same (k ∷ kinds) =
        rw
          (
            component_state-clashes k (find_kind k pair.baseline.components)
                (find_kind k pair.candidate.components) (distinct rule_ids),
            any_same kinds,
          )
          refl

findings-Conflict :
    (pair : MeasurementProtocolPair) (rule_ids : List String)
    → (any is_invalidating (drift_findings pair rule_ids) ≡ true)
      ↔ ((kind : MeasurementComponentKind) × Conflict pair rule_ids kind)
unfolding kinds_of
findings-Conflict pair rule_ids =
    let clash : MeasurementComponentKind → Bool = λ k.
      clashes k (distinct rule_ids) (find_kind k pair.baseline.components)
        (find_kind k pair.candidate.components) in
    let present : MeasurementComponentKind → Bool = λ kind.
      is_some (find_kind kind pair.baseline.components)
      || is_some (find_kind kind pair.candidate.components) in
    let whole = findings-clash pair rule_ids in
    let kept : any clash (kinds_of pair) ≡ any clash all_kinds =
      any_kept clash present all_kinds
        (λ k e. let x = clashes-Conflict pair rule_ids k e in rw x.found_baseline refl) in
    (
      λ h.
          let (kind, e) = any_found clash all_kinds (sym kept ∙ sym whole ∙ h) in
          (kind, clashes-Conflict pair rule_ids kind e),
      λ h. whole ∙ kept ∙ every_kind clash h.0 (Conflict-clashes pair rule_ids h.0 h.1),
    )

returned_report :
    {A : Type 0} (b : Bool) (x : A) {r : A} → (if b then some x else none) ≡ some r → x ≡ r
returned_report true x h = some-injective h
returned_report false x h = cc

-- A comparison that returns says that the measurement drift invalidates the claim exactly when, for
-- some kind of component, both protocols have it, each recovered or not applicable, at least one of
-- them recovered, their meanings differ, and a native finding is there that decides on that kind.
pub compare_measurement_protocols-Conflict :
    (pair : MeasurementProtocolPair) (rule_ids : List String)
    (reduction : ClaimCiVerificationReduction) (r : MeasurementDriftReport)
    → compare_measurement_protocols pair rule_ids reduction ≡ some r
    → (r.state ≡ MeasurementDriftState.invalidates)
      ↔ ((kind : MeasurementComponentKind) × Conflict pair rule_ids kind)
unfolding compare_measurement_protocols drift_report
compare_measurement_protocols-Conflict pair rule_ids reduction r h =
    let same : drift_report pair (drift_findings pair rule_ids) reduction ≡ r =
      returned_report _ _ h in
    let (there, back) = report_state-invalidates (drift_findings pair rule_ids) in
    let (meets, holds) = findings-Conflict pair rule_ids in
    subst
      (λ (x : MeasurementDriftReport).
        (x.state ≡ MeasurementDriftState.invalidates)
        ↔ ((kind : MeasurementComponentKind) × Conflict pair rule_ids kind))
      same (λ e. meets (there e), λ x. back (holds x))
