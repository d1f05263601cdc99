-- ===== src/Counter/Counts.antt =====
-- What a counter of a list holds: each digest's number of occurrences, under one key.
use claim_ci.Prelude.{
  ℕ, ◌+◌, ◌≡◌, refl, ◌||◌, List, [], ◌∷◌, String, str_eq, eq_iff, length, arith, if◌then◌else◌,
  Bool-cases, inl, inr,
}
use claim_ci.Counter.{
  Counter, count_of, has_key, increase, count_into, counter, total, count, IsDistinct,
}

pub count_of-increase :
    (j k : String) (n : ℕ) (c : Counter)
    → count_of j (increase k n c) ≡ (if str_eq k j then n else 0) + count_of j c
unfolding count_of increase
count_of-increase j k n [] = ground arith
count_of-increase j k n ((i, m) ∷ c) =
    ground (arith, count_of-increase j k n c, eq_iff i k, eq_iff i j, eq_iff k j)

count_of-count_into :
    (j : String) (c : Counter) (xs : List String)
    → count_of j (count_into c xs) ≡ count_of j c + count j xs
unfolding count_into count
count_of-count_into j c [] = omega arith
count_of-count_into j c (x ∷ xs) =
    omega (arith, count_of-count_into j (increase x 1 c) xs, count_of-increase j x 1 c)

-- `Counter(xs)[j]` is how often `j` occurs in `xs`.
pub count_of-counter : (j : String) (xs : List String) → count_of j (counter xs) ≡ count j xs
unfolding counter count_of
count_of-counter j xs = omega (arith, count_of-count_into j [] xs)

has_key-increase :
    (j k : String) (n : ℕ) (c : Counter) → has_key j (increase k n c) ≡ (str_eq k j || has_key j c)
unfolding has_key increase
has_key-increase j k n [] = ground arith
has_key-increase j k n ((i, m) ∷ c) =
    ground (arith, has_key-increase j k n c, eq_iff i k, eq_iff i j, eq_iff k j)

str_eq-sym : (s t : String) → str_eq t s ≡ str_eq s t
str_eq-sym s t = ground (arith, eq_iff s t, eq_iff t s)

pub IsDistinct-increase :
    (k : String) (n : ℕ) (c : Counter) → IsDistinct c → IsDistinct (increase k n c)
unfolding increase
IsDistinct-increase k n [] h = (unfold has_key in refl, tt)
IsDistinct-increase k n ((i, m) ∷ c) (fresh, h) = elim (Bool-cases (str_eq i k)) [
  | inl e ↦ rw e (fresh, h)
  | inr e ↦
      rw e (rw (has_key-increase i k n c, str_eq-sym i k, e, fresh), IsDistinct-increase k n c h)
]

IsDistinct-count_into :
    (c : Counter) (xs : List String) → IsDistinct c → IsDistinct (count_into c xs)
unfolding count_into
IsDistinct-count_into c [] h = h
IsDistinct-count_into c (x ∷ xs) h =
    IsDistinct-count_into (increase x 1 c) xs (IsDistinct-increase x 1 c h)

pub IsDistinct-counter : (xs : List String) → IsDistinct (counter xs)
unfolding counter
IsDistinct-counter xs = IsDistinct-count_into [] xs tt

total-increase : (k : String) (n : ℕ) (c : Counter) → total (increase k n c) ≡ total c + n
unfolding total increase
total-increase k n [] = omega arith
total-increase k n ((i, m) ∷ c) = ground (arith, total-increase k n c)

total-count_into : (c : Counter) (xs : List String) → total (count_into c xs) ≡ total c + length xs
unfolding count_into
total-count_into c [] = omega arith
total-count_into c (x ∷ xs) =
    omega (arith, total-count_into (increase x 1 c) xs, total-increase x 1 c)

-- The counts add up to the number of items.
pub total-counter : (xs : List String) → total (counter xs) ≡ length xs
unfolding counter total
total-counter xs = omega (arith, total-count_into [] xs)
