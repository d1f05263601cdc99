-- ===== src/Decimal/Exact.antt =====
-- Decimal operations at a precision that has room for the result.
use native.Mathlib.Nat.{pow-suc, pow-zero, add-zero, add-suc, suc-add, le_trans}
use claim_ci.Prelude.{ℕ, zero, suc, ◌+◌, ◌*◌, ◌^◌, ◌≤◌, ◌<◌, ◌≡◌, arith, le→leb}
use claim_ci.Decimal.Digits.{lt-pow-num_digits, num_digits-le}
use claim_ci.Decimal.{Decimal, num_digits, fix, mul, exact_mul}

pub pow-add : (p q : ℕ) → 10 ^ (p + q) ≡ 10 ^ p * 10 ^ q
pow-add p zero = rw (add-zero, pow-zero) (omega arith)
pow-add p (suc q) = rw (add-suc, pow-suc 10 (p + q), pow-suc 10 q) (omega (arith, pow-add p q))

num_digits_pos : (n : ℕ) → 0 < num_digits n
unfolding num_digits
num_digits_pos zero = omega arith
num_digits_pos (suc n) = ground arith

product_below : (a b x y : ℕ) → a < x → b < y → a * b < x * y
product_below a b x y h k = grind arith

product_digits : (a b p q : ℕ) → 0 < p → a < 10 ^ p → b < 10 ^ q → num_digits (a * b) ≤ p + q
product_digits a b zero q h k l = absurd (omega arith)
product_digits a b (suc p) q h k l =
    rw (suc-add) (
      num_digits-le (a * b) (p + q) (rw (← suc-add, pow-add (suc p) q) (product_below a b _ _ k l)))

-- A product has at most the digits of its factors together.
pub num_digits-mul : (a b : ℕ) → num_digits (a * b) ≤ num_digits a + num_digits b
num_digits-mul a b =
    product_digits a b (num_digits a) (num_digits b) (num_digits_pos a) (lt-pow-num_digits a)
      (lt-pow-num_digits b)

-- At a precision that holds every digit, `fix` changes nothing.
pub fix-eq : (prec : ℕ) (d : Decimal) → num_digits d.coefficient ≤ prec → fix prec d ≡ d
unfolding fix
fix-eq prec d h = rw (le→leb (num_digits d.coefficient) prec h)

-- A precision that holds the digits of both factors gives the exact product.
pub mul-eq :
    (prec : ℕ) (a b : Decimal)
    → num_digits a.coefficient + num_digits b.coefficient ≤ prec
    → mul prec a b ≡ exact_mul a b
unfolding mul
mul-eq prec a b h =
    fix-eq prec (exact_mul a b) (le_trans (num_digits-mul a.coefficient b.coefficient) h)
