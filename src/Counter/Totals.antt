-- ===== src/Counter/Totals.antt =====
-- The sizes of the intersection and the differences of counters.
use claim_ci.Prelude.{
  ℕ, ◌+◌, ◌≤◌, ◌≡◌, refl, ◌∙◌, ap, true, false, min, [], ◌∷◌, String, str_eq, eq_iff, arith,
  if◌then◌else◌, subst, Bool-cases, ◌⊎◌, inl, inr,
}
use claim_ci.Counter.{
  Counter, count_of, has_key, total, positive_entry, intersection, difference, IsDistinct,
}

pub total-positive_entry :
    (k : String) (n : ℕ) (rest : Counter) → total (positive_entry k n rest) ≡ n + total rest
unfolding total
total-positive_entry k n rest = ground arith

pub total-cons : (k : String) (n : ℕ) (c : Counter) → total ((k, n) ∷ c) ≡ n + total c
unfolding total
total-cons k n c = refl

-- What two counters share and what only the first has make up the first.
pub total-split : (c d : Counter) → total (intersection c d) + total (difference c d) ≡ total c
unfolding intersection difference
total-split [] d = unfold total in omega arith
total-split ((k, n) ∷ c) d =
    rw (total-positive_entry, total-positive_entry)
      (omega (arith, total-cons k n c, total-split c d))

-- The other entries.
unfoldable pub without : String → Counter → Counter
without key [] = []
without key ((k, n) ∷ c) = let rest = without key c in if str_eq k key then rest else (k, n) ∷ rest

pub count_of-without :
    (k j : String) (c : Counter) → str_eq k j ≡ false → count_of j (without k c) ≡ count_of j c
unfolding count_of without
count_of-without k j [] h = refl
count_of-without k j ((i, n) ∷ c) h =
    ground (arith, count_of-without k j c h, eq_iff i k, eq_iff i j, eq_iff k j)

pub total-without : (k : String) (c : Counter) → count_of k c + total (without k c) ≤ total c
unfolding count_of total without
total-without k [] = omega arith
total-without k ((i, n) ∷ c) = ground (arith, total-without k c)

-- An entry whose key is not asked for can be left out.
intersection-without :
    (k : String) (c d : Counter)
    → has_key k c ≡ false
    → intersection c (without k d) ≡ intersection c d
unfolding intersection has_key
intersection-without k [] d h = refl
intersection-without k ((i, n) ∷ c) d h = rw (
  count_of-without k i d (ground (arith, eq_iff i k, eq_iff k i)),
  intersection-without k c d (ground arith),
)

-- The intersection is no larger than the second counter either.
pub total-intersection-le : (c d : Counter) → IsDistinct c → total (intersection c d) ≤ total d
unfolding intersection
total-intersection-le [] d h = unfold total in omega arith
total-intersection-le ((k, n) ∷ c) d (fresh, h) =
    rw (total-positive_entry, ← intersection-without k c d fresh)
      (omega (arith, total-intersection-le c (without k d) h, total-without k d))

pub count_of-fresh : (k : String) (c : Counter) → has_key k c ≡ false → count_of k c ≡ 0
unfolding count_of has_key
count_of-fresh k [] h = refl
count_of-fresh k ((i, n) ∷ c) h = ground (arith, count_of-fresh k c)

pub count_of-le-total : (k : String) (c : Counter) → count_of k c ≤ total c
unfolding count_of total
count_of-le-total k [] = omega arith
count_of-le-total k ((i, n) ∷ c) = ground (arith, count_of-le-total k c)

pub fresh_at :
    (k j : String) (c : Counter) → str_eq k j ≡ true → has_key k c ≡ false → count_of j c ≡ 0
fresh_at k j c e h = subst (λ t. count_of t c ≡ 0) ((eq_iff k j).0 e) (count_of-fresh k c h)

count_of-positive_entry :
    (j k : String) (n : ℕ) (rest : Counter)
    → count_of j rest ≡ 0 ⊎ str_eq k j ≡ false
    → count_of j (positive_entry k n rest) ≡ (if str_eq k j then n else count_of j rest)
unfolding count_of
count_of-positive_entry j k n rest h = ground arith

pub count_of-cons :
    (j k : String) (n : ℕ) (c : Counter)
    → count_of j ((k, n) ∷ c) ≡ (if str_eq k j then n else count_of j c)
unfolding count_of
count_of-cons j k n c = refl

-- `(a & b)[key]` is the smaller count.
pub count_of-intersection :
    (j : String) (c d : Counter)
    → IsDistinct c
    → count_of j (intersection c d) ≡ min (count_of j c) (count_of j d)
unfolding intersection
count_of-intersection j [] d h = unfold count_of in omega arith
count_of-intersection j ((k, n) ∷ c) d (fresh, h) =
    let rest = count_of-intersection j c d h in
    elim (Bool-cases (str_eq k j)) [
      | inl e ↦
          count_of-positive_entry j k (min n (count_of k d)) (intersection c d)
            (inl (omega (arith, rest, fresh_at k j c e fresh)))
          ∙ rw (count_of-cons, e) (ap (λ t. min n (count_of t d)) ((eq_iff k j).0 e))
      | inr e ↦
          count_of-positive_entry j k (min n (count_of k d)) (intersection c d) (inr e)
          ∙ rw (count_of-cons, e) rest
    ]

pub count_of_self : (k : String) (n : ℕ) (c : Counter) → count_of k ((k, n) ∷ c) ≡ n
count_of_self k n c = rw (count_of-cons, (eq_iff k k).1 refl)

-- A key that a counter does not have again keeps its count below.
pub tail_count :
    (j k : String) (n : ℕ) (c : Counter)
    → has_key k c ≡ false
    → count_of j c ≤ count_of j ((k, n) ∷ c)
tail_count j k n c fresh = elim (Bool-cases (str_eq k j)) [
  | inl e ↦ omega (arith, fresh_at k j c e fresh)
  | inr e ↦ rw (count_of-cons, e) (omega arith)
]

-- Nothing is shared when no digest is in both.
pub total-intersection_apart :
    (c d : Counter)
    → IsDistinct c
    → ((j : String) → min (count_of j c) (count_of j d) ≡ 0)
    → total (intersection c d) ≡ 0
unfolding intersection
total-intersection_apart [] d h apart = unfold total in refl
total-intersection_apart ((k, n) ∷ c) d (fresh, h) apart = rw (total-positive_entry) (
    omega (
      arith,
      apart k,
      count_of_self k n c,
      total-intersection_apart c d h (λ j. omega (arith, apart j, tail_count j k n c fresh)),
    ))
