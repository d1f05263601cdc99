-- ===== src/Measurement/Clashes.antt =====
-- The tests of `_component_state` that lead to an invalidating finding.
use claim_ci.Prelude.{
  ◌≡◌, ◌↔◌, refl, ap, ◌∙◌, sym, subst, Bool, true, false, not, ◌&&◌, ◌||◌, is_empty, keep, Option,
  none, some, List, [], ◌∷◌, String, str_eq, eq_iff, member, distinct, arith, Bool-cases, inl, inr,
}
use claim_ci.Counter.Ascending.{is_empty-sorted}
use claim_ci.Measurement.{
  is_recovered, MeasurementCoverage, is_not_applicable, is_missing, is_byte_only,
  MeasurementComponentKind, MeasurementProtocolComponent,
}
use claim_ci.Measurement.Drift.{
  MeasurementDriftState, MeasurementDriftFinding, eq_state, component_state, compared_drift,
  invalidating, invalidating_rules,
}

unfoldable pub is_invalidating : MeasurementDriftFinding → Bool
is_invalidating f = eq_state MeasurementDriftState.invalidates f.state

-- The tests that lead to an invalidating finding.
unfoldable pub clashes :
    MeasurementComponentKind
    → List String
    → Option MeasurementProtocolComponent
    → Option MeasurementProtocolComponent
    → Bool
clashes kind rule_ids (some b) (some c) =
    not (is_not_applicable b.coverage && is_not_applicable c.coverage)
    && not (is_missing b.coverage || is_missing c.coverage)
    && not (is_byte_only b.coverage || is_byte_only c.coverage)
    && not (str_eq b.semantic_component_id c.semantic_component_id)
    && not (is_empty (invalidating kind rule_ids))
clashes kind rule_ids b c = false

pub component_state-clashes :
    (kind : MeasurementComponentKind) (b c : Option MeasurementProtocolComponent)
    (rule_ids : List String)
    → is_invalidating (component_state kind b c rule_ids) ≡ clashes kind rule_ids b c
unfolding component_state is_invalidating clashes
component_state-clashes kind (some b) (some c) rule_ids = unfold compared_drift in ground arith
component_state-clashes kind none none rule_ids = refl
component_state-clashes kind none (some c) rule_ids = refl
component_state-clashes kind (some b) none rule_ids = refl

member-distinct : (x : String) (xs : List String) → member x (distinct xs) ≡ member x xs
unfolding distinct
member-distinct x [] = refl
member-distinct x (y ∷ ys) =
    let same : str_eq x y ≡ true → member y ys ≡ true → member x ys ≡ true =
      λ e h. subst (λ t. member t ys ≡ true) (sym ((eq_iff x y).0 e)) h in
    elim (Bool-cases (member y ys)) [
      | inl e ↦ rw e (ground (arith, member-distinct x ys, same))
      | inr e ↦ rw e (ground (arith, member-distinct x ys))
    ]

kept_one :
    (p : String → Bool) (xs : List String)
    → is_empty (keep p xs) ≡ false
    → (x : String) × (member x xs ≡ true) × (p x ≡ true)
kept_one p [] h = cc
kept_one p (y ∷ ys) h = elim (Bool-cases (p y)) [
  | inl e ↦ (y, ground (arith, eq_iff y y), e)
  | inr e ↦ let (x, there, holds) = kept_one p ys (rw e at h) in (x, ground (arith, there), holds)
]

other_member :
    (p : String → Bool) (x y : String) (ys : List String)
    → p x ≡ true
    → p y ≡ false
    → member x (y ∷ ys) ≡ true
    → member x ys ≡ true
other_member p x y ys e f h = elim (Bool-cases (str_eq x y)) [
  | inl g ↦ absurd (let same : p x ≡ p y = ap p ((eq_iff x y).0 g) in ground (arith, same))
  | inr g ↦ ground (arith, g)
]

one_kept :
    (p : String → Bool) (x : String) (xs : List String)
    → member x xs ≡ true
    → p x ≡ true
    → is_empty (keep p xs) ≡ false
one_kept p x [] h e = cc
one_kept p x (y ∷ ys) h e = elim (Bool-cases (p y)) [
  | inl f ↦ rw f refl
  | inr f ↦ rw f (one_kept p x ys (other_member p x y ys e f h) e)
]

-- A rule decides on the kind.
pub decided :
    (kind : MeasurementComponentKind) (rule_ids : List String)
    → (is_empty (invalidating kind (distinct rule_ids)) ≡ false) ↔ (
        (rule : String) × (member rule rule_ids ≡ true)
        × (member rule (invalidating_rules kind) ≡ true))
unfolding invalidating
decided kind rule_ids = (
  λ h.
      let (rule, there, holds) =
        kept_one (λ id. member id (invalidating_rules kind)) (distinct rule_ids)
          (sym (is_empty-sorted _) ∙ h) in
      (rule, sym (member-distinct rule rule_ids) ∙ there, holds),
  λ h.
      is_empty-sorted _
      ∙ one_kept (λ id. member id (invalidating_rules kind)) h.0 (distinct rule_ids)
          (member-distinct h.0 rule_ids ∙ h.1) h.2,
)

pub settled :
    (x : MeasurementCoverage)
    → (is_recovered x || is_not_applicable x) ≡ (not (is_missing x) && not (is_byte_only x))
settled MeasurementCoverage.recovered = refl
settled MeasurementCoverage.byte_only = refl
settled MeasurementCoverage.missing = refl
settled MeasurementCoverage.not_applicable = refl

pub recovered :
    (x : MeasurementCoverage)
    → is_recovered x ≡ (not (is_not_applicable x) && not (is_missing x) && not (is_byte_only x))
recovered MeasurementCoverage.recovered = refl
recovered MeasurementCoverage.byte_only = refl
recovered MeasurementCoverage.missing = refl
recovered MeasurementCoverage.not_applicable = refl

-- Neither of two settled components is missing or known by its bytes only.
pub settled_pair :
    (x y : MeasurementCoverage)
    → (is_recovered x || is_not_applicable x) ≡ true
    → (is_recovered y || is_not_applicable y) ≡ true
    → (is_recovered x || is_recovered y) ≡ true
    → (not (is_not_applicable x && is_not_applicable y)
        && not (is_missing x || is_missing y)
        && not (is_byte_only x || is_byte_only y))
      ≡ true
settled_pair x y h k l = ground (arith, settled x, settled y, recovered x, recovered y)
