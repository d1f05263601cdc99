-- ===== src/Config/Ratio.antt =====
-- The arithmetic of the compute comparison: `_multiply_exact` and `_at_least_ratio`.
use native.Mathlib.Nat.{le_of_mul-le-mul_right, mul-le-mul_right, one-le-pow, mul_assoc}
use claim_ci.Prelude.{
  ℕ, ◌+◌, ◌*◌, ◌^◌, ◌<◌, ◌≡◌, sym, ◌∙◌, false, leb, min, Bool-ext, leb→le, le→leb, arith,
}
use claim_ci.Prelude.Int.{
  ℤ, pos_part, neg_part, ◌+ℤ◌, ◌-ℤ◌, +ℤ_parts, -ℤ_parts, sub-swap, parts_apart,
}
use claim_ci.Decimal.{Decimal, exact_mul, le_decimal}
use claim_ci.Decimal.Exact.{mul-eq, pow-add}
use claim_ci.Decimal.Laws.{le_decimal-nonneg}
use claim_ci.Config.{multiply_exact, at_least_ratio}

-- `_multiply_exact` gives the product that no context rounds, whatever the number of digits.
pub multiply_exact-eq : (a b : Decimal) → multiply_exact a b ≡ exact_mul a b
unfolding multiply_exact
multiply_exact-eq a b = mul-eq _ a b (omega arith)

pow_pos : (m : ℕ) → 0 < 10 ^ m
pow_pos m = one-le-pow m 10 (omega arith)

-- Scaling both sides by a power of ten.
le-scale :
    (a b x y m : ℕ) → leb (a * 10 ^ (x + m)) (b * 10 ^ (y + m)) ≡ leb (a * 10 ^ x) (b * 10 ^ y)
le-scale a b x y m =
    rw (pow-add x m, pow-add y m, ← mul_assoc, ← mul_assoc)
      (Bool-ext _ _ (λ h. le→leb _ _ (le_of_mul-le-mul_right (leb→le _ _ h) (pow_pos m)))
        (λ h. le→leb _ _ (mul-le-mul_right (10 ^ m) (leb→le _ _ h))))

-- Both sides of the comparison by cross products, with the powers of ten collected.
collect : (t b x y z : ℕ) → t * 10 ^ x * 10 ^ y * (b * 10 ^ z) ≡ t * b * 10 ^ (x + y + z)
collect t b x y z = rw (pow-add (x + y) z, pow-add x y) (omega arith)

collect_plain : (c x y z : ℕ) → c * 10 ^ x * 10 ^ y * 10 ^ z ≡ c * 10 ^ (x + y + z)
collect_plain c x y z = rw (pow-add (x + y) z, pow-add x y) (omega arith)

-- The exponents left when the common power of ten is taken out.
common :
    (ec eb et : ℤ)
    → (m : ℕ) × (pos_part et + neg_part ec + pos_part eb ≡ pos_part ((et +ℤ eb) -ℤ ec) + m)
      × (pos_part ec + neg_part eb + neg_part et ≡ pos_part (ec -ℤ (et +ℤ eb)) + m)
common ec eb et =
    let s = et +ℤ eb in
    (
      min (pos_part et + neg_part ec + pos_part eb) (pos_part ec + neg_part eb + neg_part et),
      omega (arith, +ℤ_parts et eb, -ℤ_parts s ec, sub-swap ec s, parts_apart (s -ℤ ec)),
      omega (arith, +ℤ_parts et eb, -ℤ_parts s ec, sub-swap ec s, parts_apart (s -ℤ ec)),
    )

cross_products :
    (c b t : Decimal)
    → at_least_ratio c b t
      ≡ leb
          (t.coefficient * b.coefficient * 10 ^ pos_part ((t.exponent +ℤ b.exponent) -ℤ c.exponent))
          (c.coefficient * 10 ^ pos_part (c.exponent -ℤ (t.exponent +ℤ b.exponent)))
unfolding at_least_ratio
cross_products c b t =
    let (m, right, left) = common c.exponent b.exponent t.exponent in
    rw (collect t.coefficient b.coefficient _ _ _, collect_plain c.coefficient _ _ _, right, left)
      (le-scale (t.coefficient * b.coefficient) c.coefficient _ _ m)

exact_mul-nonneg :
    (a b : Decimal) → a.negative ≡ false → b.negative ≡ false → (exact_mul a b).negative ≡ false
unfolding exact_mul
exact_mul-nonneg a b h k = ground arith

-- `_at_least_ratio` of three decimals that are not negative answers whether the exact product of
-- the threshold and the baseline is at most the candidate: no digit is lost to a context.
pub at_least_ratio-exact :
    (c b t : Decimal)
    → c.negative ≡ false
    → b.negative ≡ false
    → t.negative ≡ false
    → at_least_ratio c b t ≡ le_decimal (multiply_exact t b) c
at_least_ratio-exact c b t hc hb ht = rw multiply_exact-eq (
    cross_products c b t
    ∙ sym (unfold exact_mul in le_decimal-nonneg (exact_mul t b) c (exact_mul-nonneg t b ht hb) hc))
