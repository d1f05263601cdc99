-- ===== src/Config/Complete.antt =====
-- What a config without missing or invalid fields gives to the comparison.
use claim_ci.Prelude.{
  ℕ, ◌*◌, ◌≤◌, ◌<◌, ◌≡◌, refl, ◌∙◌, ap, true, leb, le→leb, lt→ltb, [], ◌∷◌, and_split, not-not,
  Option, none, some, is_some, is_empty, is_empty-append, is_empty-when, String, arith,
}
use claim_ci.Prelude.Int.{pos}
use claim_ci.Decimal.{Decimal, of_ℕ, num_digits, exact_mul}
use claim_ci.Floats.{Floats}
use claim_ci.Value.{Value, Fields, int, mapping, get}
use claim_ci.Config.{
  read, positive_number, present_scalar, missing_or_invalid_fields, evaluation_mapping_complete,
  at_least_ratio, compute_ratio_threshold, compute_proxies, choose_basis, steps_batch,
}
use claim_ci.Config.Reading.{read_value, evaluation_fields_present, nested_fields}
use claim_ci.Config.Ratio.{multiply_exact-eq}
use claim_ci.Config.Rules.{compute_mismatch}

-- The fields of a complete config, as its checks found them.
pub record IsComplete (fl : Floats) (config : Fields) : Type 0 where
  pub training_steps : is_some (positive_number fl (read config ("training_steps" ∷ []))) ≡ true
  pub batch_size : is_some (positive_number fl (read config ("batch_size" ∷ []))) ≡ true
  pub identifier : present_scalar fl (read config ("evaluation" ∷ "dataset_identifier" ∷ [])) ≡ true
  pub version : present_scalar fl (read config ("evaluation" ∷ "dataset_version" ∷ [])) ≡ true
  pub split : present_scalar fl (read config ("evaluation" ∷ "split" ∷ [])) ≡ true

pub IsComplete-fields :
    (fl : Floats) (config : Fields)
    → is_empty (missing_or_invalid_fields fl config) ≡ true
    → IsComplete fl config
unfolding missing_or_invalid_fields
IsComplete-fields fl config h =
    let (steps, h1) = and_split (simp (is_empty-append, is_empty-when, not-not) at h) in
    let (epoch_count, h2) = and_split h1 in
    let (batch, h3) = and_split h2 in
    let (dataset, h4) = and_split h3 in
    let (dataset_version, h5) = and_split h4 in
    let (name, h6) = and_split h5 in
    let (revision, h7) = and_split h6 in
    let (part, h8) = and_split h7 in
    record {
      training_steps = steps;
      batch_size = batch;
      identifier = name;
      version = revision;
      split = part;
    }

abbrev below : Option Value → String → Option Value
below o name = elim o [ none ↦ none | some next ↦ read_value next (name ∷ []) ]

abbrev itself : Option Value → Option Value
itself o = elim o [ none ↦ none | some next ↦ some next ]

below_complete :
    (fl : Floats) (o : Option Value)
    → present_scalar fl (below o "dataset_identifier") ≡ true
    → present_scalar fl (below o "dataset_version") ≡ true
    → present_scalar fl (below o "split") ≡ true
    → evaluation_fields_present fl (nested_fields (itself o)) ≡ true
unfolding evaluation_fields_present read_value present_scalar
below_complete fl none h k l = cc
below_complete fl (some (mapping f)) h k l = ground arith
below_complete fl (some _) h k l = cc

-- A config that lacks nothing has a complete evaluation mapping.
evaluation_complete :
    (fl : Floats) (config : Fields)
    → IsComplete fl config
    → evaluation_mapping_complete fl config ≡ true
unfolding evaluation_mapping_complete read
evaluation_complete fl config h =
    below_complete fl (get "evaluation" config) h.identifier h.version h.split

basis-of_parts :
    (fl : Floats) (b c : Fields)
    → IsComplete fl b
    → IsComplete fl c
    → choose_basis (compute_proxies fl b) (compute_proxies fl c) ≡ some steps_batch
unfolding choose_basis compute_proxies
basis-of_parts fl b c hb hc =
    ground (arith, hb.training_steps, hb.batch_size, hc.training_steps, hc.batch_size)

-- Two configs that lack nothing are compared by the product of steps and batch size.
pub choose_basis_complete :
    (fl : Floats) (b c : Fields)
    → is_empty (missing_or_invalid_fields fl b) ≡ true
    → is_empty (missing_or_invalid_fields fl c) ≡ true
    → choose_basis (compute_proxies fl b) (compute_proxies fl c) ≡ some steps_batch
choose_basis_complete fl b c hb hc =
    basis-of_parts fl b c (IsComplete-fields fl b hb) (IsComplete-fields fl c hc)

-- A config's field is a positive integer of at most 4300 digits.
abbrev pub Declares : Fields → String → ℕ → Type 0
Declares config field n =
    (read config (field ∷ []) ≡ some (int (pos n))) × (0 < n) × (num_digits n ≤ 4300)

positive_number-Declares :
    (fl : Floats) (config : Fields) (field : String) (n : ℕ)
    → Declares config field n
    → positive_number fl (read config (field ∷ [])) ≡ some (of_ℕ n)
unfolding positive_number
positive_number-Declares fl config field n (found, positive, short) =
    rw (found, le→leb _ _ short, lt→ltb _ _ positive)

-- The threshold of 1.5 over whole numbers.
at_least-of_ℕ :
    (x y : ℕ) → at_least_ratio (of_ℕ x) (of_ℕ y) compute_ratio_threshold ≡ leb (3 * y) (2 * x)
unfolding at_least_ratio
at_least-of_ℕ x y = ground arith

exact_mul-of_ℕ : (x y : ℕ) → exact_mul (of_ℕ x) (of_ℕ y) ≡ of_ℕ (x * y)
unfolding exact_mul
exact_mul-of_ℕ x y = refl

proxy-Declares :
    (fl : Floats) (config : Fields) (steps_count batch : ℕ)
    → Declares config "training_steps" steps_count
    → Declares config "batch_size" batch
    → compute_proxies fl config steps_batch ≡ some (of_ℕ (steps_count * batch))
unfolding compute_proxies
proxy-Declares fl config s n hs hn =
    rw (positive_number-Declares fl config _ s hs, positive_number-Declares fl config _ n hn)
      (ap some (multiply_exact-eq (of_ℕ s) (of_ℕ n) ∙ exact_mul-of_ℕ s n))

mismatch-of_proxies :
    (fl : Floats) (b c : Fields) (x y : Decimal)
    → compute_proxies fl b steps_batch ≡ some x
    → compute_proxies fl c steps_batch ≡ some y
    → compute_mismatch fl b c ≡ at_least_ratio y x compute_ratio_threshold
unfolding compute_mismatch choose_basis
mismatch-of_proxies fl b c x y hx hy = rw (hx, hy) (rw (hx, hy))

-- For configs whose steps and batch sizes are positive integers of at most 4300 digits, which is what
-- Python spells, the compute rule fires exactly when twice the candidate's steps times batch size
-- reaches three times the baseline's.
pub compute_mismatch-Declares :
    (fl : Floats) (b c : Fields) (bs bb cs cb : ℕ)
    → Declares b "training_steps" bs
    → Declares b "batch_size" bb
    → Declares c "training_steps" cs
    → Declares c "batch_size" cb
    → compute_mismatch fl b c ≡ leb (3 * (bs * bb)) (2 * (cs * cb))
compute_mismatch-Declares fl b c bs bb cs cb hbs hbb hcs hcb =
    mismatch-of_proxies fl b c _ _ (proxy-Declares fl b bs bb hbs hbb)
      (proxy-Declares fl c cs cb hcs hcb)
    ∙ at_least-of_ℕ (cs * cb) (bs * bb)
