-- ===== src/Decimal/Digits.antt =====
-- The number of decimal digits of a coefficient, `len(Decimal(n).as_tuple().digits)`.
use native.Mathlib.Nat.{pow-suc}
use claim_ci.Prelude.{ℕ, zero, suc, ◌*◌, ◌/◌, ◌^◌, ◌≤◌, ◌<◌, ◌≡◌, refl, ltb, if◌then◌else◌, arith}

-- The fuel bounds the digits after the first.
digits_within : ℕ → ℕ → ℕ
digits_within zero n = 1
digits_within (suc fuel) n =
    let more = suc (digits_within fuel (n / 10)) in if ltb n 10 then 1 else more

-- Each division takes off one digit, so the number itself is fuel enough.
unfoldable pub num_digits : ℕ → ℕ
unfolding digits_within
num_digits n = digits_within n n

pow-suc' : (p : ℕ) → 10 ^ suc p ≡ 10 ^ p * 10
pow-suc' p = pow-suc 10 p

within_fuel : (fuel n : ℕ) → n ≤ fuel → n < 10 ^ digits_within fuel n
unfolding digits_within
within_fuel zero n h = omega arith
within_fuel (suc fuel) n h =
    ground (arith, within_fuel fuel (n / 10), pow-suc' (digits_within fuel (n / 10)))

fits_within : (fuel n p : ℕ) → n < 10 ^ suc p → digits_within fuel n ≤ suc p
unfolding digits_within
fits_within zero n p h = omega arith
fits_within (suc fuel) n zero h = ground arith
fits_within (suc fuel) n (suc p) h = ground (arith, fits_within fuel (n / 10) p, pow-suc' (suc p))

-- A number stays below the power of ten of its digits, and no smaller power does.
pub lt-pow-num_digits : (n : ℕ) → n < 10 ^ num_digits n
unfolding num_digits
lt-pow-num_digits n = within_fuel n n (omega arith)

pub num_digits-le : (n p : ℕ) → n < 10 ^ suc p → num_digits n ≤ suc p
unfolding num_digits
num_digits-le n p h = fits_within n n p h

digits_large : num_digits (10 ^ 40) ≡ 41
unfolding num_digits
digits_large = refl
