-- ===== src/Models.antt =====
-- claimci/models.py: the shared data models. A finding's title and explanation are text for a
-- reader and are left out; its rule, severity, evidence and impact are kept.
pub mod Enums
pub mod Caught
use claim_ci.Prelude.{
  ℕ, ◌≡◌, refl, Bool, true, false, not, Option, none, some, List, [], ◌∷◌, String, str_eq, any,
  ◌==◌, if◌then◌else◌, strip,
}
use claim_ci.Prelude.Int.{ℤ, pos}
use claim_ci.Decimal.{Decimal}
use claim_ci.Value.{Float, Value, null, bool, int, float, str, list, mapping, opaque}
use Enums.{Severity, Impact, Direction, is_invalidates, is_insufficient}

-- The places at which the loaders and checks raise `ClaimCIError`; `uncaught` is another exception,
-- which no handler of `ClaimCIError` catches.
pub data ClaimError : Type 0 where
  bad_direction : ClaimError
  not_finite : ClaimError
  unreadable : ClaimError
  malformed : ClaimError
  wrong_shape : ClaimError
  missing_metric : ClaimError
  no_runs : ClaimError
  no_records : ClaimError
  bad_threshold : ClaimError
  bad_identity : ClaimError
  bad_path : ClaimError
  outside_root : ClaimError
  uncaught : ClaimError

abbrev pub is_uncaught : ClaimError → Bool
is_uncaught ClaimError.uncaught = true
is_uncaught _ = false

-- A function that may raise.
pub data Result {ℓ} (Returned : Type ℓ) : Type ℓ where
  err : ClaimError → Result Returned
  ok : Returned → Result Returned

-- It returns or raises `ClaimCIError`.
abbrev pub is_caught {ℓ} : {A : Type ℓ} → Result A → Bool
is_caught (ok returned) = true
is_caught (err raised) = not (is_uncaught raised)

-- `if not checked: raise`
abbrev pub require : Bool → ClaimError → Result (Unit {0})
require false raised = err raised
require true raised = ok tt

-- `None` raises.
abbrev pub or_raise {ℓ} : {A : Type ℓ} → Option A → ClaimError → Result A
or_raise (some found) raised = ok found
or_raise none raised = err raised

infixl 5 ◌>>=◌
-- The next step runs on what this one returns.
abbrev pub ◌>>=◌ {ℓ κ} : {A : Type ℓ} {B : Type κ} → Result A → (A → Result B) → Result B
err raised >>= next = err raised
ok returned >>= next = next returned

infixl 5 ◌>>◌
abbrev pub ◌>>◌ {ℓ} : {A : Type ℓ} → Result (Unit {0}) → Result A → Result A
checked >> next = checked >>= λ done. next

-- Inversion of a successful bind.
pub >>=-eq-ok {ℓ κ} :
    {A : Type ℓ} {B : Type κ} (first : Result A) (next : A → Result B) {returned : B}
    → (first >>= next) ≡ ok returned
    → (found : A) × (first ≡ ok found) × (next found ≡ ok returned)
>>=-eq-ok (err raised) next h = cc
>>=-eq-ok (ok found) next h = (found, refl, h)

pub ok-injective {ℓ} : {A : Type ℓ} {a b : A} → ok a ≡ ok b → a ≡ b
ok-injective h = cc

pub or_raise-eq-ok {ℓ} :
    {A : Type ℓ} (o : Option A) (e : ClaimError) {a : A} → or_raise o e ≡ ok a → o ≡ some a
or_raise-eq-ok none e h = cc
or_raise-eq-ok (some b) e h = cc

pub record MetricSummary : Type 0 where
  pub count : ℕ
  pub mean : Float
  pub standard_deviation : Option Float

-- What stands under a key of a finding's evidence.
pub data Datum : Type 0 where
  nothing : Datum
  flag : Bool → Datum
  count : ℕ → Datum
  text : String → Datum
  texts : List String → Datum
  numbers : List ℕ → Datum
  integers : List ℤ → Datum
  real : Float → Datum
  spelled : Decimal → Datum
  value : Value → Datum
  pair : Datum → Datum → Datum
  ratio : ℕ → ℕ → Datum
  tally : List (String × ℕ) → Datum
  summary : MetricSummary → Datum

abbrev pub Evidence : Type 0
Evidence = List (String × Datum)

pub record Finding : Type 0 where
  pub rule_id : String
  pub severity : Severity
  pub evidence : Evidence
  pub impact : Impact

pub record DatasetHashes : Type 0 where
  pub path : String
  pub hashes : List String

-- `overlap_rate` is kept as the two counts that the source divides.
pub record OverlapSummary : Type 0 where
  pub experiment : String
  pub train_count : ℕ
  pub eval_count : ℕ
  pub overlap_count : ℕ
  pub overlap_rate : ℕ × ℕ
  pub overlapping_hashes : List String

-- `any(finding.impact is Impact.INVALIDATES for finding in findings)`, and the others
abbrev pub any_invalidates : List Finding → Bool
any_invalidates = any (λ f. is_invalidates f.impact)

abbrev pub any_insufficient : List Finding → Bool
any_insufficient = any (λ f. is_insufficient f.impact)

-- `part / total if total else 0.0`, as the numbers that are divided
abbrev pub rate : ℕ → ℕ → ℕ × ℕ
rate part total = if total == 0 then (0, 1) else (part, total)

-- A value that is handed over as a direction: the enum itself, or a scalar of a caller.
pub data DirectionValue : Type 0 where
  direction : Direction → DirectionValue
  scalar : Value → DirectionValue

-- `Direction(text)`
abbrev pub parse_direction : String → Result Direction
parse_direction s =
    if str_eq s "higher"
    then ok Direction.higher
    else if str_eq s "lower"
    then ok Direction.lower
    else err bad_direction

unfoldable pub coerce_direction : DirectionValue → Result Direction
unfolding strip
coerce_direction (direction d) = ok d
coerce_direction (scalar (str s)) = parse_direction (strip s)
coerce_direction (scalar v) = err bad_direction

coerce_trims : coerce_direction (scalar (str " lower ")) ≡ ok Direction.lower
unfolding coerce_direction
coerce_trims = refl
