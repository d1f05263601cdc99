-- ===== src/Dataset/Leakage.antt =====
-- `check_dataset_leakage` and the records that two splits share.
use claim_ci.Prelude.{ℕ, ◌≤◌, ◌<◌, ◌≡◌, ◌↔◌, ◌⊎◌, false, ltb, min, List, String, length, arith}
use claim_ci.Models.{any_invalidates, any_insufficient, DatasetHashes}
use claim_ci.Counter.{counter, count, count_of, intersection, total}
use claim_ci.Counter.Counts.{count_of-counter, IsDistinct-counter, total-counter}
use claim_ci.Counter.Totals.{
  total-intersection-le, total-split, total-intersection_apart, count_of-intersection,
  count_of-le-total,
}
use claim_ci.Dataset.{overlap_summary, check_dataset_leakage}

overlap : List String → List String → ℕ
overlap train eval = total (intersection (counter train) (counter eval))

-- No digest occurs in both lists.
abbrev pub IsApart : List String → List String → Type 0
IsApart train eval = (j : String) → (count j train ≡ 0) ⊎ (count j eval ≡ 0)

min_count :
    (train eval : List String) (j : String)
    → count_of j (intersection (counter train) (counter eval)) ≡ min (count j train) (count j eval)
min_count train eval j = omega (
  arith,
  count_of-intersection j (counter train) (counter eval) (IsDistinct-counter train),
  count_of-counter j train,
  count_of-counter j eval,
)

overlap-IsApart : (train eval : List String) → (overlap train eval ≡ 0) ↔ IsApart train eval
unfolding overlap
overlap-IsApart train eval = (
  λ h j. omega (
    arith,
    min_count train eval j,
    count_of-le-total j (intersection (counter train) (counter eval)),
  ),
  λ apart.
      total-intersection_apart (counter train) (counter eval) (IsDistinct-counter train)
        (λ j. omega (arith, apart j, count_of-counter j train, count_of-counter j eval)),
)

leakage-invalidates :
    (experiment : String) (train eval : DatasetHashes)
    → any_invalidates (check_dataset_leakage experiment train eval).1
      ≡ ltb 0 (overlap train.hashes eval.hashes)
unfolding check_dataset_leakage overlap
leakage-invalidates experiment train eval = ground arith

-- `check_dataset_leakage` leaves a comparison valid exactly when no record hash occurs in both
-- splits; it never calls the evidence insufficient.
pub check_dataset_leakage-IsApart :
    (experiment : String) (train eval : DatasetHashes)
    → ((any_invalidates (check_dataset_leakage experiment train eval).1 ≡ false)
        ↔ IsApart train.hashes eval.hashes)
      × (any_insufficient (check_dataset_leakage experiment train eval).1 ≡ false)
check_dataset_leakage-IsApart experiment train eval =
    let gate = leakage-invalidates experiment train eval in
    let (there, back) = overlap-IsApart train.hashes eval.hashes in
    (
      (λ h. there (ground (arith, gate)), λ apart. ground (arith, gate, back apart)),
      unfold check_dataset_leakage in ground arith,
    )

-- The reported overlap is at most the size of either split, so the rate of overlap is at most
-- one, and its divisor is never zero.
pub overlap_summary-le :
    (experiment : String) (train eval : DatasetHashes)
    → ((overlap_summary experiment train eval).overlap_count ≤ length train.hashes)
      × ((overlap_summary experiment train eval).overlap_count ≤ length eval.hashes)
      × ((overlap_summary experiment train eval).overlap_rate.0
          ≤ (overlap_summary experiment train eval).overlap_rate.1)
      × (0 < (overlap_summary experiment train eval).overlap_rate.1)
unfolding overlap_summary
overlap_summary-le experiment train eval =
    let t = counter train.hashes in
    let e = counter eval.hashes in
    let low : total (intersection t e) ≤ length train.hashes =
      omega (arith, total-split t e, total-counter train.hashes) in
    let high : total (intersection t e) ≤ length eval.hashes = omega (
      arith,
      total-intersection-le t e (IsDistinct-counter train.hashes),
      total-counter eval.hashes,
    ) in
    (low, high, ground arith, ground arith)
