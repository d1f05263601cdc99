-- ===== src/Dataset/Alignment.antt =====
-- `check_evaluation_alignment` and the evaluation splits as multisets of record hashes.
use claim_ci.Prelude.{◌+◌, ◌≡◌, ◌↔◌, false, not, List, String, length, arith}
use claim_ci.Models.{any_invalidates, any_insufficient, DatasetHashes}
use claim_ci.Counter.{counter, count, eq_counter}
use claim_ci.Counter.Equal.{eq_counter_iff}
use claim_ci.Counter.Symmetric.{total-sides}
use claim_ci.Dataset.{sides, check_evaluation_alignment}

-- Every digest occurs as often in both lists.
abbrev pub SameRecords : List String → List String → Type 0
SameRecords xs ys = (j : String) → count j xs ≡ count j ys

alignment-invalidates :
    (b c : DatasetHashes)
    → any_invalidates (check_evaluation_alignment b c)
      ≡ not (eq_counter (counter b.hashes) (counter c.hashes))
unfolding check_evaluation_alignment
alignment-invalidates b c = ground arith

-- `check_evaluation_alignment` leaves a comparison valid exactly when both evaluation splits hold
-- the same records equally often, in any order; it never calls the evidence insufficient.
pub check_evaluation_alignment-SameRecords :
    (b c : DatasetHashes)
    → ((any_invalidates (check_evaluation_alignment b c) ≡ false) ↔ SameRecords b.hashes c.hashes)
      × (any_insufficient (check_evaluation_alignment b c) ≡ false)
check_evaluation_alignment-SameRecords b c =
    let gate = alignment-invalidates b c in
    let (there, back) = eq_counter_iff b.hashes c.hashes in
    (
      (λ h. there (ground (arith, gate)), λ same. ground (arith, gate, back same)),
      unfold check_evaluation_alignment in ground arith,
    )

-- The reported counts add up: what matches and what only one side has make up each evaluation
-- split.
pub sides_add_up :
    (b c : DatasetHashes)
    → ((sides b c).matching_count + (sides b c).baseline_only_count ≡ length b.hashes)
      × ((sides b c).matching_count + (sides b c).candidate_only_count ≡ length c.hashes)
unfolding sides
sides_add_up b c = total-sides b.hashes c.hashes
