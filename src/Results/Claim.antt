-- ===== src/Results/Claim.antt =====
-- `_metric_summary_comparison`: the decision about the claimed improvement.

use claim_ci.Prelude.{◌≤◌, ◌≡◌, refl, sym, ◌∙◌, ap, subst, Bool, true, false, not}
use claim_ci.Decimal.{Decimal, le_decimal, num_digits, exact_add, add, sub, negate, fix}
use claim_ci.Decimal.Exact.{fix-eq}
use claim_ci.Floats.{Floats}
use claim_ci.Value.{Float}
use claim_ci.Models.{
  ok, bad_threshold, >>=-eq-ok, ok-injective, require, Evidence, MetricSummary, DirectionValue,
  coerce_direction,
}
use claim_ci.Models.Enums.{Direction, is_invalidates, is_insufficient}
use claim_ci.Results.{decimal_number, finite_float}
use claim_ci.Results.Compare.{
  default_precision, absolute, claim_finding, Comparison, metric_summary_comparison, is_threshold,
}

-- The direction turned round.
abbrev pub opposite : Direction → Direction
opposite Direction.higher = Direction.lower
opposite Direction.lower = Direction.higher

-- An improvement where lower is better is the improvement of the two means exchanged where
-- higher is better.
pub absolute-opposite : (d : Direction) (b c : Decimal) → absolute (opposite d) b c ≡ absolute d c b
unfolding absolute
absolute-opposite Direction.higher b c = refl
absolute-opposite Direction.lower b c = refl

-- The exact difference: after minus before where higher is better, before minus after where lower is.
abbrev pub gain : Direction → Decimal → Decimal → Decimal
gain Direction.higher before after = exact_add after (negate before)
gain Direction.lower before after = exact_add before (negate after)

absolute-gain :
    (d : Direction) (b c : Decimal) → absolute d b c ≡ fix default_precision (gain d b c)
unfolding absolute sub add
absolute-gain Direction.higher b c = refl
absolute-gain Direction.lower b c = refl

-- What a comparison that returns has computed.
pub record Compared (fl : Floats) (b c : MetricSummary) (minimum : Float)
    (declared : DirectionValue) (r : Comparison) : Type 0 where
  pub towards : Direction
  pub before : Decimal
  pub after : Decimal
  pub threshold : Decimal
  pub direction_eq : coerce_direction declared ≡ ok towards
  pub before_eq : decimal_number fl b.mean ≡ ok before
  pub after_eq : decimal_number fl c.mean ≡ ok after
  pub threshold_eq : decimal_number fl minimum ≡ ok threshold
  pub not_negative : is_threshold minimum ≡ true
  pub improvement_eq : finite_float fl (absolute towards before after) ≡ ok r.absolute_improvement
  pub invalidates :
      is_invalidates r.finding.impact ≡ not (le_decimal threshold (absolute towards before after))
  pub insufficient : is_insufficient r.finding.impact ≡ false
  -- the gate over the exact difference, rounded
  pub rounded :
      is_invalidates r.finding.impact
      ≡ not (le_decimal threshold (fix default_precision (gain towards before after)))
  -- and over the exact difference itself, where it has at most 28 digits
  pub exactly :
      num_digits (gain towards before after).coefficient ≤ default_precision
      → is_invalidates r.finding.impact ≡ not (le_decimal threshold (gain towards before after))

finding_gates :
    (met : Bool) (e : Evidence)
    → (is_invalidates (claim_finding met e).impact ≡ not met)
      × (is_insufficient (claim_finding met e).impact ≡ false)
unfolding claim_finding
finding_gates true e = (refl, refl)
finding_gates false e = (refl, refl)

required : (b : Bool) → require b bad_threshold ≡ ok tt → b ≡ true
required true h = refl
required false h = cc

-- A comparison that returns has read both means and the threshold, a finite number that is not
-- negative, and its finding invalidates the claim exactly when the threshold is not at most the
-- exact difference of the means rounded to 28 digits: the candidate's mean minus the baseline's where
-- higher is better, the baseline's minus the candidate's where lower is. Where the exact difference
-- has at most 28 digits, the threshold is compared to it unrounded.
pub metric_summary_comparison-Compared :
    (fl : Floats) (b c : MetricSummary) (minimum : Float) (declared : DirectionValue)
    (r : Comparison)
    → metric_summary_comparison fl b c minimum declared ≡ ok r
    → Compared fl b c minimum declared r
unfolding metric_summary_comparison
metric_summary_comparison-Compared fl b c minimum declared r h =
    let (towards, direction_eq, h1) = >>=-eq-ok (coerce_direction declared) _ h in
    let (before, before_eq, h2) = >>=-eq-ok (decimal_number fl b.mean) _ h1 in
    let (after, after_eq, h3) = >>=-eq-ok (decimal_number fl c.mean) _ h2 in
    let (_, checked, h4) = >>=-eq-ok (require (is_threshold minimum) bad_threshold) _ h3 in
    let (threshold, threshold_eq, h5) = >>=-eq-ok (decimal_number fl minimum) _ h4 in
    let (public, improvement_eq, h6) =
      >>=-eq-ok (finite_float fl (absolute towards before after)) _ h5 in
    let gates = finding_gates (le_decimal threshold (absolute towards before after)) in
    subst (Compared fl b c minimum declared) (ok-injective h6) (record {
      towards = towards;
      before = before;
      after = after;
      threshold = threshold;
      direction_eq = direction_eq;
      before_eq = before_eq;
      after_eq = after_eq;
      threshold_eq = threshold_eq;
      not_negative = required _ checked;
      improvement_eq = improvement_eq;
      invalidates = (gates _).0;
      insufficient = (gates _).1;
      rounded =
          (gates _).0 ∙ ap (λ x. not (le_decimal threshold x)) (absolute-gain towards before after);
      exactly = λ h.
          (gates _).0
          ∙ ap (λ x. not (le_decimal threshold x))
              (absolute-gain towards before after ∙ fix-eq default_precision _ h);
    })

coerce_declared : (d : Direction) → coerce_direction (DirectionValue.direction d) ≡ ok d
unfolding coerce_direction
coerce_declared d = refl

-- Two comparisons with the means exchanged and the direction turned round find the same
-- improvement.
exchanged :
    (fl : Floats) (b c : MetricSummary) (minimum : Float) (r s : Comparison)
    (p : Compared fl b c minimum (DirectionValue.direction Direction.lower) r)
    (q : Compared fl c b minimum (DirectionValue.direction Direction.higher) s)
    → (absolute p.towards p.before p.after ≡ absolute q.towards q.before q.after)
      × (p.threshold ≡ q.threshold)
exchanged fl b c minimum r s p q =
    let down : Direction.lower ≡ p.towards =
      ok-injective (sym (coerce_declared _) ∙ p.direction_eq) in
    let up : Direction.higher ≡ q.towards =
      ok-injective (sym (coerce_declared _) ∙ q.direction_eq) in
    let first : p.before ≡ q.after = ok-injective (sym p.before_eq ∙ q.after_eq) in
    let second : p.after ≡ q.before = ok-injective (sym p.after_eq ∙ q.before_eq) in
    (
      rw (first, second, ← down, ← up) (absolute-opposite Direction.higher _ _),
      ok-injective (sym p.threshold_eq ∙ q.threshold_eq),
    )

-- A claim that lower is better, checked on a baseline and a candidate, and the claim that higher
-- is better, checked on the two exchanged, report the same absolute improvement, and one is
-- invalidated exactly when the other is.
pub metric_summary_comparison-opposite :
    (fl : Floats) (b c : MetricSummary) (minimum : Float) (r s : Comparison)
    → metric_summary_comparison fl b c minimum (DirectionValue.direction Direction.lower) ≡ ok r
    → metric_summary_comparison fl c b minimum (DirectionValue.direction Direction.higher) ≡ ok s
    → (r.absolute_improvement ≡ s.absolute_improvement)
      × (is_invalidates r.finding.impact ≡ is_invalidates s.finding.impact)
metric_summary_comparison-opposite fl b c minimum r s h k =
    let p = metric_summary_comparison-Compared fl b c minimum _ r h in
    let q = metric_summary_comparison-Compared fl c b minimum _ s k in
    let (same, threshold) = exchanged fl b c minimum r s p q in
    (
      ok-injective (sym p.improvement_eq ∙ ap (finite_float fl) same ∙ q.improvement_eq),
      p.invalidates ∙ rw (same, threshold) (sym q.invalidates),
    )
