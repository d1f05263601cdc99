-- ===== src/Decimal/Laws.antt =====
-- The order on decimals, and how it reads on coefficients where neither is negative.
use native.Mathlib.Nat.{add-zero}
use claim_ci.Prelude.{◌*◌, ◌^◌, ◌≡◌, true, false, leb, arith}
use claim_ci.Prelude.Int.{pos_part, ◌-ℤ◌}
use claim_ci.Decimal.{Decimal, le_decimal, eq_decimal}

pub le_decimal_refl : (a : Decimal) → le_decimal a a ≡ true
unfolding le_decimal
le_decimal_refl a = ground arith

pub eq_decimal_refl : (a : Decimal) → eq_decimal a a ≡ true
unfolding eq_decimal
eq_decimal_refl a = ground (arith, le_decimal_refl a)

pub eq_decimal_comm : (a b : Decimal) → eq_decimal a b ≡ eq_decimal b a
unfolding eq_decimal
eq_decimal_comm a b = ground arith

pub le_decimal-total : (a b : Decimal) → le_decimal a b ≡ false → le_decimal b a ≡ true
unfolding le_decimal
le_decimal-total a b h = ground arith

-- Two decimals that are not negative are compared by their coefficients, scaled to the smaller
-- exponent.
pub le_decimal-nonneg :
    (a b : Decimal)
    → a.negative ≡ false
    → b.negative ≡ false
    → le_decimal a b
      ≡ leb
          (a.coefficient * 10 ^ pos_part (a.exponent -ℤ b.exponent))
          (b.coefficient * 10 ^ pos_part (b.exponent -ℤ a.exponent))
unfolding le_decimal
le_decimal-nonneg a b h k = simp (h, k) (rw (add-zero, add-zero))
