-- ===== src/Results/Aggregates.antt =====
-- `check_reported_aggregates`: the comparison of two reported means, without raw runs.
use claim_ci.Prelude.{
  ℕ, ◌-◌, ◌^◌, ◌≤◌, ◌≡◌, refl, subst, Bool, true, false, not, ◌&&◌, ◌||◌, leb, ltb, ◌==◌, none,
  some, [], ◌∷◌, String, str_eq, strip, str_length, any_code, and_split, leb→le, or_false,
}
use claim_ci.Prelude.Int.{pos, negsuc}
use claim_ci.Floats.{Floats}
use claim_ci.Value.{Float, Value, null, bool, int, float, str, list, mapping, opaque}
use claim_ci.Models.{
  ClaimError, Result, ok, err, bad_identity, not_finite, no_runs, ◌>>=◌, >>=-eq-ok, ok-injective,
  require, or_raise, or_raise-eq-ok, Finding, Datum, MetricSummary, DirectionValue, any_invalidates,
  any_insufficient,
}
use claim_ci.Models.Enums.{Severity, Impact, is_invalidates}
use claim_ci.Results.{finite_number}
use claim_ci.Results.Compare.{Comparison, metric_summary_comparison}
use claim_ci.Results.Claim.{metric_summary_comparison-Compared}
use claim_ci.Results.Check.{ResultCheck}

-- An integer, not a Boolean, from 1 to 2 ** 63 - 1.
unfoldable pub sample_count : Value → Result ℕ
sample_count (int (pos n)) = require (leb 1 n && leb n (2 ^ 63 - 1)) no_runs >>= λ checked. ok n
sample_count _ = err no_runs

abbrev pub is_control : ℕ → Bool
is_control c = ltb c 32 || c == 127

unfoldable pub identity : Value → Result String
identity (str s) =
    require
      (not (str_eq s "")
        && (str_eq s (strip s) && (leb (str_length s) 256 && not (any_code is_control s))))
      bad_identity
    >>= λ checked. ok s
identity _ = err bad_identity

abbrev pub reported : ℕ → Float → MetricSummary
reported n x = record { count = n; mean = x; standard_deviation = none }

abbrev pub aggregate_verified : String → String → MetricSummary → MetricSummary → Finding
aggregate_verified statistic aggregation baseline candidate = record {
  rule_id = "RESULT.AGGREGATE_VERIFIED";
  severity = Severity.verified;
  evidence =
      ("statistic", Datum.text statistic)
      ∷ ("aggregation", Datum.text aggregation)
      ∷ ("baseline", Datum.summary baseline)
      ∷ ("candidate", Datum.summary candidate)
      ∷ [];
  impact = Impact.none;
}

-- The arguments of a call.
pub record Aggregates : Type 0 where
  pub baseline_value : Value
  pub candidate_value : Value
  pub baseline_sample_count : Value
  pub candidate_sample_count : Value
  pub statistic : Value
  pub aggregation : Value
  pub minimum_improvement : Float
  pub declared : DirectionValue

unfoldable pub check_reported_aggregates : Floats → Aggregates → Result ResultCheck
unfolding sample_count identity
check_reported_aggregates fl a = do
  b_count ← sample_count a.baseline_sample_count
  c_count ← sample_count a.candidate_sample_count
  statistic ← identity a.statistic
  aggregation ← identity a.aggregation
  b_value ← or_raise (finite_number fl a.baseline_value) not_finite
  c_value ← or_raise (finite_number fl a.candidate_value) not_finite
  compared ←
      metric_summary_comparison fl (reported b_count b_value) (reported c_count c_value)
        a.minimum_improvement a.declared
  ok (record {
    baseline_summary = reported b_count b_value;
    candidate_summary = reported c_count c_value;
    absolute_improvement = compared.absolute_improvement;
    relative_improvement = compared.relative_improvement;
    findings =
        aggregate_verified statistic aggregation (reported b_count b_value)
          (reported c_count c_value)
        ∷ compared.finding
        ∷ [];
  })

abbrev pub IsCount : ℕ → Type 0
IsCount n = (1 ≤ n) × (n ≤ 2 ^ 63 - 1)

required : (b : Bool) (e : ClaimError) → require b e ≡ ok tt → b ≡ true
required true e h = refl
required false e h = cc

sample_count-IsCount : (v : Value) {n : ℕ} → sample_count v ≡ ok n → IsCount n
unfolding sample_count
sample_count-IsCount (int (pos n)) h =
    let (_, checked, same) = >>=-eq-ok (require (leb 1 n && leb n (2 ^ 63 - 1)) no_runs) _ h in
    let (low, high) = and_split (required _ _ checked) in
    subst IsCount (ok-injective same) (leb→le _ _ low, leb→le _ _ high)
sample_count-IsCount (int (negsuc n)) h = cc
sample_count-IsCount null h = cc
sample_count-IsCount (bool b) h = cc
sample_count-IsCount (float x) h = cc
sample_count-IsCount (str s) h = cc
sample_count-IsCount (list xs) h = cc
sample_count-IsCount (mapping f) h = cc
sample_count-IsCount (opaque n) h = cc

-- What a check of reported aggregates that returns has established.
pub record Reported (fl : Floats) (a : Aggregates) (r : ResultCheck) : Type 0 where
  pub baseline_count : IsCount r.baseline_summary.count
  pub candidate_count : IsCount r.candidate_summary.count
  pub baseline_value : finite_number fl a.baseline_value ≡ some r.baseline_summary.mean
  pub candidate_value : finite_number fl a.candidate_value ≡ some r.candidate_summary.mean
  pub compared : Comparison
  pub compared_eq :
      metric_summary_comparison fl r.baseline_summary r.candidate_summary a.minimum_improvement
        a.declared
      ≡ ok compared
  pub invalidates : any_invalidates r.findings ≡ is_invalidates compared.finding.impact
  pub insufficient : any_insufficient r.findings ≡ false

-- A check of reported aggregates that returns has sample counts from 1 to 2 ^ 63 - 1 and finite
-- values. Its findings invalidate the claim exactly when the comparison of the two values does,
-- and they never call the evidence insufficient.
pub check_reported_aggregates-Reported :
    (fl : Floats) (a : Aggregates) (r : ResultCheck)
    → check_reported_aggregates fl a ≡ ok r
    → Reported fl a r
unfolding check_reported_aggregates
check_reported_aggregates-Reported fl a r h =
    let (bn, bn_eq, h1) = >>=-eq-ok (sample_count a.baseline_sample_count) _ h in
    let (cn, cn_eq, h2) = >>=-eq-ok (sample_count a.candidate_sample_count) _ h1 in
    let (statistic, _, h3) = >>=-eq-ok (identity a.statistic) _ h2 in
    let (aggregation, _, h4) = >>=-eq-ok (identity a.aggregation) _ h3 in
    let (bv, bv_eq, h5) =
      >>=-eq-ok (or_raise (finite_number fl a.baseline_value) not_finite) _ h4 in
    let (cv, cv_eq, h6) =
      >>=-eq-ok (or_raise (finite_number fl a.candidate_value) not_finite) _ h5 in
    let (compared, compared_eq, h7) =
      >>=-eq-ok
        (metric_summary_comparison fl (reported bn bv) (reported cn cv) a.minimum_improvement
          a.declared)
        _ h6 in
    let gates = metric_summary_comparison-Compared fl _ _ _ _ compared compared_eq in
    subst (Reported fl a) (ok-injective h7) (record {
      baseline_count = sample_count-IsCount a.baseline_sample_count bn_eq;
      candidate_count = sample_count-IsCount a.candidate_sample_count cn_eq;
      baseline_value = or_raise-eq-ok _ not_finite bv_eq;
      candidate_value = or_raise-eq-ok _ not_finite cv_eq;
      compared = compared;
      compared_eq = compared_eq;
      invalidates = or_false _;
      insufficient = rw gates.insufficient refl;
    })
