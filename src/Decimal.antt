-- ===== src/Decimal.antt =====
-- Python's `decimal.Decimal` where it is finite: sign, coefficient and exponent, and the
-- operations of a context with a precision and the default rounding, half to even.
mod Digits
pub mod Laws
pub mod Exact
unfoldable pub use Digits.{num_digits}
use claim_ci.Prelude.{
  ℕ, zero, suc, ◌+◌, ◌-◌, ◌*◌, ◌/◌, ◌%◌, ◌^◌, ◌≡◌, refl, Bool, true, false, not, ◌&&◌, ◌||◌, ltb,
  leb, ◌==◌, List, [], ◌∷◌, if◌then◌else◌,
}
use claim_ci.Prelude.Int.{ℤ, pos, negsuc, pos_part, neg_part, sub_ℕ, ◌+ℤ◌, ◌-ℤ◌, leb_ℤ, eq_ℤ}

-- `Decimal.as_tuple()`: the value is ± coefficient * 10 ^ exponent.
pub record Decimal : Type 0 where
  pub negative : Bool
  pub coefficient : ℕ
  pub exponent : ℤ

abbrev pub of_ℕ : ℕ → Decimal
of_ℕ n = record { negative = false; coefficient = n; exponent = pos 0 }

-- The powers of ten that bring two decimals to their smaller exponent.
abbrev pub shift : Decimal → Decimal → ℕ
unfolding ◌-ℤ◌
shift a b = 10 ^ pos_part (a.exponent -ℤ b.exponent)

abbrev pub positive_at : Decimal → Decimal → ℕ
unfolding ◌-ℤ◌
positive_at a b = if a.negative then 0 else a.coefficient * shift a b

abbrev pub negative_at : Decimal → Decimal → ℕ
unfolding ◌-ℤ◌
negative_at a b = if a.negative then a.coefficient * shift a b else 0

-- `a <= b`, exactly
unfoldable pub le_decimal : Decimal → Decimal → Bool
unfolding ◌-ℤ◌
le_decimal a b = leb (positive_at a b + negative_at b a) (positive_at b a + negative_at a b)

-- `a == b`, exactly
unfoldable pub eq_decimal : Decimal → Decimal → Bool
unfolding le_decimal
eq_decimal a b = le_decimal a b && le_decimal b a

-- `a == 0`
abbrev pub is_zero : Decimal → Bool
is_zero a = a.coefficient == 0

-- `a > 0`
abbrev pub is_positive : Decimal → Bool
is_positive a = not a.negative && ltb 0 a.coefficient

-- Rounds half to even up from the quotient `q`, where `r` is left over of `unit`.
abbrev pub half_even : ℕ → ℕ → ℕ → ℕ
half_even q r unit = if ltb unit (2 * r) || ((2 * r) == unit && (q % 2) == 1) then q + 1 else q

-- The coefficient and exponent after `k` digits are dropped; a carry to one digit more is
-- dropped again.
abbrev pub drop_digits : ℕ → ℕ → Decimal → Decimal
unfolding num_digits ◌+ℤ◌
drop_digits prec k d =
    let q = half_even (d.coefficient / 10 ^ k) (d.coefficient % 10 ^ k) (10 ^ k) in
    if ltb prec (num_digits q)
    then record d { coefficient = q / 10; exponent = d.exponent +ℤ pos (k + 1) }
    else record d { coefficient = q; exponent = d.exponent +ℤ pos k }

-- `Decimal._fix`: the decimal at a context's precision
unfoldable pub fix : ℕ → Decimal → Decimal
unfolding num_digits ◌+ℤ◌
fix prec d =
    let n = num_digits d.coefficient in if leb n prec then d else drop_digits prec (n - prec) d

-- The product before rounding.
unfoldable pub exact_mul : Decimal → Decimal → Decimal
unfolding ◌+ℤ◌
exact_mul a b = record {
  negative = not (if a.negative then b.negative else not b.negative);
  coefficient = a.coefficient * b.coefficient;
  exponent = a.exponent +ℤ b.exponent;
}

-- `a * b` under a context
unfoldable pub mul : ℕ → Decimal → Decimal → Decimal
unfolding fix exact_mul
mul prec a b = fix prec (exact_mul a b)

-- The sum before rounding, at the smaller exponent.
unfoldable pub exact_add : Decimal → Decimal → Decimal
unfolding ◌-ℤ◌
exact_add a b =
    let p = positive_at a b + positive_at b a in
    let n = negative_at a b + negative_at b a in
    record {
      negative = ltb p n;
      coefficient = (p - n) + (n - p);
      exponent = if leb_ℤ a.exponent b.exponent then a.exponent else b.exponent;
    }

unfoldable pub add : ℕ → Decimal → Decimal → Decimal
unfolding fix exact_add
add prec a b = fix prec (exact_add a b)

unfoldable pub negate : Decimal → Decimal
negate a = record a { negative = not a.negative }

-- `a - b` under a context
unfoldable pub sub : ℕ → Decimal → Decimal → Decimal
unfolding add negate
sub prec a b = add prec a (negate b)

-- `Decimal.__truediv__` before rounding, for a divisor that is not zero: the quotient is taken
-- to one digit more than the precision, and a quotient that is not exact keeps a last digit
-- that no rounding takes for a tie.
unfoldable pub exact_div : ℕ → Decimal → Decimal → Decimal
unfolding num_digits ◌-ℤ◌
exact_div prec a b =
    let up = (num_digits b.coefficient + prec + 1) - num_digits a.coefficient in
    let down = num_digits a.coefficient - (num_digits b.coefficient + prec + 1) in
    let top = a.coefficient * 10 ^ up in
    let bottom = b.coefficient * 10 ^ down in
    let q = top / bottom in
    record {
      negative = not (if a.negative then b.negative else not b.negative);
      coefficient = if (top % bottom) == 0 then q else if (q % 5) == 0 then q + 1 else q;
      exponent = (a.exponent -ℤ b.exponent) -ℤ sub_ℕ up down;
    }

unfoldable pub div : ℕ → Decimal → Decimal → Decimal
unfolding fix exact_div
div prec a b = fix prec (exact_div prec a b)

-- `abs(a)` under a context
unfoldable pub abs : ℕ → Decimal → Decimal
unfolding fix
abs prec a = fix prec (record a { negative = false })

-- `sum(values, start)` under a context
unfoldable pub sum : ℕ → Decimal → List Decimal → Decimal
unfolding add
sum prec start [] = start
sum prec start (d ∷ ds) = sum prec (add prec start d) ds

third :
    div 5 (of_ℕ 2) (of_ℕ 3) ≡ record { negative = false; coefficient = 66667; exponent = negsuc 4 }
unfolding div
third = refl

carry : fix 2 (of_ℕ 996) ≡ record { negative = false; coefficient = 10; exponent = pos 2 }
unfolding fix
carry = refl

difference :
    eq_decimal
      (sub 28 (of_ℕ 3) (record { negative = false; coefficient = 35; exponent = negsuc 0 }))
      (record { negative = true; coefficient = 5; exponent = negsuc 0 })
    ≡ true
unfolding eq_decimal sub
difference = refl
