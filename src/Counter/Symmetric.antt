-- ===== src/Counter/Symmetric.antt =====
-- The size of an intersection does not depend on the side.
use claim_ci.Prelude.{
  ℕ, ◌+◌, ◌≤◌, ◌≡◌, ◌∙◌, false, List, [], ◌∷◌, String, str_eq, length, arith, Bool-cases, inl, inr,
}
use claim_ci.Counter.{
  Counter, count_of, has_key, counter, total, positive_entry, intersection, difference, IsDistinct,
}
use claim_ci.Counter.Counts.{total-counter, IsDistinct-counter}
use claim_ci.Counter.Totals.{
  without, count_of-without, count_of_self, tail_count, fresh_at, total-without, total-cons,
  total-split, count_of-intersection,
}

below_rest :
    (k j : String) (n : ℕ) (c d : Counter)
    → has_key k c ≡ false
    → count_of j ((k, n) ∷ c) ≤ count_of j d
    → count_of j c ≤ count_of j (without k d)
below_rest k j n c d fresh h = elim (Bool-cases (str_eq k j)) [
  | inl e ↦ omega (arith, fresh_at k j c e fresh)
  | inr e ↦ rw (count_of-without k j d e) (omega (arith, tail_count j k n c fresh))
]

-- A counter that counts nothing more often is no larger.
pub total_mono :
    (c d : Counter)
    → IsDistinct c
    → ((j : String) → count_of j c ≤ count_of j d)
    → total c ≤ total d
total_mono [] d h le = unfold total in omega arith
total_mono ((k, n) ∷ c) d (fresh, h) le = omega (
  arith,
  total-cons k n c,
  le k,
  count_of_self k n c,
  total-without k d,
  total_mono c (without k d) h (λ j. below_rest k j n c d fresh (le j)),
)

has_key-positive_entry :
    (j k : String) (n : ℕ) (rest : Counter)
    → str_eq k j ≡ false
    → has_key j rest ≡ false
    → has_key j (positive_entry k n rest) ≡ false
unfolding has_key
has_key-positive_entry j k n rest e h = ground arith

intersection-fresh :
    (j : String) (c d : Counter) → has_key j c ≡ false → has_key j (intersection c d) ≡ false
unfolding intersection
intersection-fresh j [] d h = h
intersection-fresh j ((k, n) ∷ c) d h =
    has_key-positive_entry j k _ _ (unfold has_key in ground arith)
      (intersection-fresh j c d (unfold has_key in ground arith))

IsDistinct-positive_entry :
    (k : String) (n : ℕ) (rest : Counter)
    → has_key k rest ≡ false
    → IsDistinct rest
    → IsDistinct (positive_entry k n rest)
IsDistinct-positive_entry k n rest h d = ground arith

pub IsDistinct-intersection : (c d : Counter) → IsDistinct c → IsDistinct (intersection c d)
unfolding intersection
IsDistinct-intersection [] d h = tt
IsDistinct-intersection ((k, n) ∷ c) d (fresh, h) =
    IsDistinct-positive_entry k _ _ (intersection-fresh k c d fresh) (IsDistinct-intersection c d h)

pub half_symmetric :
    (c d : Counter)
    → IsDistinct c
    → IsDistinct d
    → total (intersection c d) ≤ total (intersection d c)
half_symmetric c d hc hd =
    total_mono (intersection c d) (intersection d c) (IsDistinct-intersection c d hc)
      λ j. omega (arith, count_of-intersection j c d hc, count_of-intersection j d c hd)

pub total-intersection_comm :
    (xs ys : List String)
    → total (intersection (counter xs) (counter ys))
      ≡ total (intersection (counter ys) (counter xs))
total-intersection_comm xs ys =
    let hx = IsDistinct-counter xs in
    let hy = IsDistinct-counter ys in
    omega (
      arith,
      half_symmetric (counter xs) (counter ys) hx hy,
      half_symmetric (counter ys) (counter xs) hy hx,
    )

-- What two lists share and what only one has make up each list.
pub total-sides :
    (xs ys : List String)
    → (total (intersection (counter xs) (counter ys)) + total (difference (counter xs) (counter ys))
        ≡ length xs)
      × (total (intersection (counter xs) (counter ys))
            + total (difference (counter ys) (counter xs))
          ≡ length ys)
total-sides xs ys = (
  total-split (counter xs) (counter ys) ∙ total-counter xs,
  omega (
    arith,
    total-intersection_comm xs ys,
    total-split (counter ys) (counter xs),
    total-counter ys,
  ),
)
