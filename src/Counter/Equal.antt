-- ===== src/Counter/Equal.antt =====
-- Counters are equal exactly when they count every digest alike.
use claim_ci.Prelude.{
  ℕ, ◌≤◌, ◌<◌, ◌≡◌, ◌↔◌, refl, sym, ◌∙◌, ap, true, false, List, [], ◌∷◌, String, str_eq, eq_iff,
  arith, Bool-cases, inl, inr, length, ==_iff,
}
use claim_ci.Counter.{
  Counter, count_of, has_key, increase, count_into, counter, entries_in, eq_counter, IsDistinct,
  count,
}
use claim_ci.Counter.Counts.{count_of-counter, IsDistinct-counter}
use claim_ci.Counter.Totals.{
  without, count_of-without, count_of-fresh, count_of-cons, count_of_self, fresh_at,
}

has_key-without :
    (k j : String) (c : Counter) → str_eq k j ≡ false → has_key j (without k c) ≡ has_key j c
unfolding has_key without
has_key-without k j [] h = refl
has_key-without k j ((i, n) ∷ c) h =
    ground (arith, has_key-without k j c h, eq_iff i k, eq_iff i j, eq_iff k j)

length-without-le : (k : String) (c : Counter) → length (without k c) ≤ length c
unfolding without
length-without-le k [] = omega arith
length-without-le k ((i, n) ∷ c) = ground (arith, length-without-le k c)

length-without-lt :
    (k : String) (c : Counter) → has_key k c ≡ true → length (without k c) < length c
unfolding has_key without
length-without-lt k [] h = cc
length-without-lt k ((i, n) ∷ c) h = ground (arith, length-without-lt k c, length-without-le k c)

entry-split :
    (k : String) (n : ℕ) (c d : Counter)
    → entries_in ((k, n) ∷ c) d ≡ true
    → (has_key k d ≡ true) × (n ≡ count_of k d) × (entries_in c d ≡ true)
unfolding entries_in
entry-split k n c d h = ground arith

entry-join :
    (k : String) (n : ℕ) (c d : Counter)
    → has_key k d ≡ true
    → n ≡ count_of k d
    → entries_in c d ≡ true
    → entries_in ((k, n) ∷ c) d ≡ true
unfolding entries_in
entry-join k n c d there same rest = ground arith

-- Entries that are found under other keys are found without this one.
entries_in-without :
    (k : String) (c d : Counter)
    → has_key k c ≡ false
    → entries_in c d ≡ true
    → entries_in c (without k d) ≡ true
unfolding entries_in
entries_in-without k [] d fresh h = refl
entries_in-without k ((i, n) ∷ c) d fresh h =
    let other : str_eq k i ≡ false = unfold has_key in ground (arith, eq_iff i k, eq_iff k i) in
    let fresh' : has_key k c ≡ false = unfold has_key in ground arith in
    let (there, same, rest) = entry-split i n c d h in
    entry-join i n c (without k d) (rw (has_key-without k i d other) there)
      (rw (count_of-without k i d other) same) (entries_in-without k c d fresh' rest)

-- A counter whose entries all stand in another is no longer.
length-entries_in : (c d : Counter) → IsDistinct c → entries_in c d ≡ true → length c ≤ length d
unfolding entries_in
length-entries_in [] d distinct h = omega arith
length-entries_in ((k, n) ∷ c) d (fresh, distinct) h =
    let (there, _, rest) = entry-split k n c d h in
    omega (
      arith,
      length-entries_in c (without k d) distinct (entries_in-without k c d fresh rest),
      length-without-lt k d there,
    )

entry_found :
    (j : String) (c d : Counter)
    → entries_in c d ≡ true
    → has_key j c ≡ true
    → count_of j c ≡ count_of j d
unfolding entries_in has_key count_of
entry_found j [] d h there = cc
entry_found j ((k, n) ∷ c) d h there =
    let (_, same, rest) = entry-split k n c d h in
    elim (Bool-cases (str_eq k j)) [
      | inl e ↦ rw e (same ∙ ap (λ t. count_of t d) ((eq_iff k j).0 e))
      | inr e ↦ rw e (entry_found j c d rest (rw e at there))
    ]

-- Every count in a counter of a list is positive.
abbrev pub IsPositive : Counter → Type 0
IsPositive [] = Unit
IsPositive ((k, n) ∷ c) = (0 < n) × IsPositive c

pub IsPositive-increase :
    (k : String) (n : ℕ) (c : Counter) → 0 < n → IsPositive c → IsPositive (increase k n c)
unfolding increase
IsPositive-increase k n [] h p = (h, tt)
IsPositive-increase k n ((i, m) ∷ c) h (q, p) = elim (Bool-cases (str_eq i k)) [
  | inl e ↦ rw e (omega arith, p)
  | inr e ↦ rw e (q, IsPositive-increase k n c h p)
]

IsPositive-count_into :
    (c : Counter) (xs : List String) → IsPositive c → IsPositive (count_into c xs)
unfolding count_into
IsPositive-count_into c [] p = p
IsPositive-count_into c (x ∷ xs) p =
    IsPositive-count_into (increase x 1 c) xs (IsPositive-increase x 1 c (omega arith) p)

pub has_key-count :
    (j : String) (c : Counter) → IsPositive c → 0 < count_of j c → has_key j c ≡ true
unfolding has_key count_of
has_key-count j [] p h = elim h [ ]
has_key-count j ((k, n) ∷ c) p h = ground (arith, has_key-count j c p.1)

pub count-has_key :
    (j : String) (c : Counter) → IsPositive c → has_key j c ≡ true → 0 < count_of j c
unfolding has_key count_of
count-has_key j [] p h = cc
count-has_key j ((k, n) ∷ c) p h = ground (arith, count-has_key j c p.1)

-- Equal counters count alike, also the digests that neither holds.
pub eq_counter-counts :
    (c d : Counter)
    → IsDistinct c
    → IsPositive d
    → eq_counter c d ≡ true
    → (j : String) → count_of j c ≡ count_of j d
unfolding eq_counter
eq_counter-counts c d distinct positive h j =
    let sizes : length c ≡ length d = ground arith in
    let inside : entries_in c d ≡ true = ground arith in
    elim (Bool-cases (has_key j c)) [
      | inl there ↦ entry_found j c d inside there
      | inr fresh ↦ elim (Bool-cases (has_key j d)) [
        | inl extra ↦ absurd (
            omega (
              arith,
              sizes,
              length-without-lt j d extra,
              length-entries_in c (without j d) distinct (entries_in-without j c d fresh inside),
            ))
        | inr absent ↦ count_of-fresh j c fresh ∙ sym (count_of-fresh j d absent)
      ]
    ]

other_count :
    (j k : String) (n : ℕ) (c : Counter)
    → str_eq k j ≡ false
    → count_of j c ≡ count_of j ((k, n) ∷ c)
other_count j k n c e = rw (count_of-cons, e)

entries_in-counts :
    (c d : Counter)
    → IsDistinct c
    → IsPositive c
    → IsPositive d
    → ((j : String) → 0 < count_of j c → count_of j c ≡ count_of j d)
    → entries_in c d ≡ true
unfolding entries_in
entries_in-counts [] d distinct p q same = refl
entries_in-counts ((k, n) ∷ c) d (fresh, distinct) (positive, p) q same =
    let here : n ≡ count_of k d = sym (count_of_self k n c) ∙ same k (rw count_of_self positive) in
    entry-join k n c d (has_key-count k d q (omega arith)) here (
      entries_in-counts c d distinct p q λ j some_c. elim (Bool-cases (str_eq k j)) [
        | inl e ↦ absurd (omega (arith, fresh_at k j c e fresh))
        | inr e ↦ other_count j k n c e ∙ same j (rw (← other_count j k n c e) some_c)
      ])

-- The converse.
pub counts-eq_counter :
    (c d : Counter)
    → IsDistinct c
    → IsDistinct d
    → IsPositive c
    → IsPositive d
    → ((j : String) → count_of j c ≡ count_of j d)
    → eq_counter c d ≡ true
unfolding eq_counter
counts-eq_counter c d dc dd pc pd same =
    let forward = entries_in-counts c d dc pc pd (λ j _. same j) in
    let backward = entries_in-counts d c dd pd pc (λ j _. sym (same j)) in
    rw (
      (==_iff (length c) (length d)).1
          (omega (arith, length-entries_in c d dc forward, length-entries_in d c dd backward)),
      forward,
    )

pub IsPositive-counter : (xs : List String) → IsPositive (counter xs)
unfolding counter
IsPositive-counter xs = IsPositive-count_into [] xs tt

-- `Counter(xs) == Counter(ys)` answers whether every digest occurs as often in both lists.
pub eq_counter_iff :
    (xs ys : List String)
    → (eq_counter (counter xs) (counter ys) ≡ true) ↔ ((j : String) → count j xs ≡ count j ys)
eq_counter_iff xs ys = (
  λ h j.
      rw (← count_of-counter j xs, ← count_of-counter j ys)
        (eq_counter-counts (counter xs) (counter ys) (IsDistinct-counter xs) (IsPositive-counter ys)
          h j),
  λ same.
      counts-eq_counter (counter xs) (counter ys) (IsDistinct-counter xs) (IsDistinct-counter ys)
        (IsPositive-counter xs) (IsPositive-counter ys)
        (λ j. count_of-counter j xs ∙ same j ∙ sym (count_of-counter j ys)),
)
