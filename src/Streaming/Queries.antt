-- ===== src/Streaming/Queries.antt =====
-- The queries of the store, and the counters of the digests that its rows hold.
use claim_ci.Prelude.{
  ℕ, ◌≡◌, ◌↔◌, refl, ap, ◌∙◌, sym, List, [], ◌∷◌, map, String, length, arith, Bool-ext,
}
use claim_ci.Counter.{
  Counter, counter, count, count_of, keys, sorted, total, intersection, difference, IsDistinct,
}
use claim_ci.Counter.Counts.{total-counter, count_of-counter, IsDistinct-counter}
use claim_ci.Counter.Totals.{
  count_of-fresh, total-positive_entry, total-split, count_of-intersection,
}
use claim_ci.Counter.Equal.{IsPositive, has_key-count, count-has_key}
use claim_ci.Counter.Symmetric.{total_mono, IsDistinct-intersection}
use claim_ci.Counter.Ascending.{sorted-keys}
use claim_ci.Dataset.{hash_count_evidence, count_entry, overlap_summary}
use claim_ci.Models.{DatasetHashes}
use claim_ci.Streaming.Store.{
  join, shared_total, side_only_total, Table, Experiment, Split, overlap_fact,
}
use claim_ci.Streaming.Tables.{Holds, tally, tally-evidence}

-- The join adds up what the two counters share.
shared_total-join : (c d : Counter) → shared_total (join c d) ≡ total (intersection c d)
unfolding shared_total join intersection
shared_total-join [] d = unfold total in refl
shared_total-join ((k, n) ∷ c) d =
    rw total-positive_entry (ground (arith, shared_total-join c d, count_of-fresh k d))

side_only_total-difference : (c d : Counter) → side_only_total c d ≡ total (difference c d)
unfolding side_only_total difference
side_only_total-difference [] d = unfold total in refl
side_only_total-difference ((k, n) ∷ c) d =
    rw total-positive_entry (ground (arith, side_only_total-difference c d))

-- Rows that hold a list count as many.
pub total-Holds : (c : Counter) (xs : List String) → Holds c xs → total c ≡ length xs
total-Holds c xs (distinct, positive, counts) = omega (
  arith,
  total-counter xs,
  total_mono c (counter xs) distinct (λ j. omega (arith, counts j, count_of-counter j xs)),
  total_mono (counter xs) c (IsDistinct-counter xs)
      (λ j. omega (arith, counts j, count_of-counter j xs)),
)

total-intersection-Holds :
    (c d : Counter) (xs ys : List String)
    → Holds c xs
    → Holds d ys
    → total (intersection c d) ≡ total (intersection (counter xs) (counter ys))
total-intersection-Holds c d xs ys (distinct, _, counts) (_, _, counts') =
    let same : (j : String)
        → count_of j (intersection c d) ≡ count_of j (intersection (counter xs) (counter ys)) =
      λ j. omega (
        arith,
        counts j,
        counts' j,
        count_of-counter j xs,
        count_of-counter j ys,
        count_of-intersection j c d distinct,
        count_of-intersection j (counter xs) (counter ys) (IsDistinct-counter xs),
      ) in
    omega (
      arith,
      total_mono (intersection c d) (intersection (counter xs) (counter ys))
          (IsDistinct-intersection c d distinct) (λ j. omega (arith, same j)),
      total_mono (intersection (counter xs) (counter ys)) (intersection c d)
          (IsDistinct-intersection (counter xs) (counter ys) (IsDistinct-counter xs))
          (λ j. omega (arith, same j)),
    )

pub shared_total-Holds :
    (c d : Counter) (xs ys : List String)
    → Holds c xs
    → Holds d ys
    → shared_total (join c d) ≡ total (intersection (counter xs) (counter ys))
shared_total-Holds c d xs ys h k = shared_total-join c d ∙ total-intersection-Holds c d xs ys h k

pub side_only_total-Holds :
    (c d : Counter) (xs ys : List String)
    → Holds c xs
    → Holds d ys
    → side_only_total c d ≡ total (difference (counter xs) (counter ys))
side_only_total-Holds c d xs ys h k = omega (
  arith,
  side_only_total-difference c d,
  total-intersection-Holds c d xs ys h k,
  total-split c d,
  total-split (counter xs) (counter ys),
  total-Holds c xs h,
  total-counter xs,
)

-- The ordered entries of rows tell how often they count a digest, and nothing else.
entries_counts :
    (c d : Counter)
    → IsDistinct c
    → IsDistinct d
    → hash_count_evidence c ≡ hash_count_evidence d
    → (j : String) → count_of j c ≡ count_of j d
entries_counts c d h k e j = sym (tally-evidence j c h) ∙ ap (tally j) e ∙ tally-evidence j d k

same_entry :
    (c d : Counter) (ks : List String)
    → ((j : String) → count_of j c ≡ count_of j d)
    → map (count_entry c) ks ≡ map (count_entry d) ks
same_entry c d [] same = refl
same_entry c d (k ∷ ks) same = rw (same k, same_entry c d ks same)

counts_entries :
    (c d : Counter)
    → IsDistinct c
    → IsDistinct d
    → IsPositive c
    → IsPositive d
    → ((j : String) → count_of j c ≡ count_of j d)
    → hash_count_evidence c ≡ hash_count_evidence d
unfolding hash_count_evidence
counts_entries c d h k p q same =
    let keys_same : sorted (keys c) ≡ sorted (keys d) = sorted-keys c d h k λ j.
      Bool-ext _ _ (λ e. has_key-count j d q (omega (arith, same j, count-has_key j c p e)))
        (λ e. has_key-count j c p (omega (arith, same j, count-has_key j d q e))) in
    same_entry c d (sorted (keys c)) same ∙ ap (map (count_entry d)) keys_same

-- Two tables hold the same ordered entries exactly when they hold the same records.
pub entries-SameRecords :
    (c d : Counter) (xs ys : List String)
    → Holds c xs
    → Holds d ys
    → (hash_count_evidence c ≡ hash_count_evidence d) ↔ ((j : String) → count j xs ≡ count j ys)
entries-SameRecords c d xs ys (h, p, counts) (k, q, counts') = (
  (λ e j. omega (arith, counts j, counts' j, entries_counts c d h k e j)),
  λ same. counts_entries c d h k p q (λ j. omega (arith, counts j, counts' j, same j)),
)

-- A store whose rows hold two splits reports the same sizes and the same overlap as the check in memory does.
pub overlap_fact-summary :
    (table : Table) (e : Experiment) (limit : ℕ) (name : String) (train eval : DatasetHashes)
    → Holds (table e Split.train) train.hashes
    → Holds (table e Split.eval) eval.hashes
    → ((overlap_fact table e limit).train_count ≡ (overlap_summary name train eval).train_count)
      × ((overlap_fact table e limit).eval_count ≡ (overlap_summary name train eval).eval_count)
      × ((overlap_fact table e limit).overlap_count
          ≡ (overlap_summary name train eval).overlap_count)
unfolding overlap_fact overlap_summary
overlap_fact-summary table e limit name train eval h k =
    (total-Holds _ _ h, total-Holds _ _ k, shared_total-Holds _ _ _ _ h k)

-- Rows that hold the same records count as many.
pub total-SameRecords :
    (c d : Counter) (xs ys : List String)
    → Holds c xs
    → Holds d ys
    → ((j : String) → count j xs ≡ count j ys)
    → total c ≡ total d
total-SameRecords c d xs ys (h, _, counts) (k, _, counts') same = omega (
  arith,
  total_mono c d h (λ j. omega (arith, counts j, counts' j, same j)),
  total_mono d c k (λ j. omega (arith, counts j, counts' j, same j)),
)
