-- ===== src/Streaming/Indexing/Progressing.antt =====
-- What the store holds after each part of the `try` block.
use claim_ci.Prelude.{
  ℕ, ◌+◌, ◌≤◌, ◌≡◌, refl, ltb, Option, none, some, List, [], ◌∷◌, ◌++◌, String, length,
  length-append, arith, Bool-cases, inl, inr,
}
use mathlib.Core.List.{append-nil}
use claim_ci.Counter.{Counter, counter}
use claim_ci.Dataset.{hash_count_evidence}
use claim_ci.Streaming.Store.{Experiment, Split, Table, Spill, replace, upsert, add_batch}
use claim_ci.Streaming.Tables.{Holds, upsert-Holds}
use claim_ci.Streaming.Indexing.{Job}
use claim_ci.Streaming.Indexing.Digests.{Kept, Begins}

replace_here :
    (t : Table) (e : Experiment) (s : Split) (rows : Counter) → replace t e s rows e s ≡ rows
unfolding replace
replace_here t Experiment.baseline Split.train rows = refl
replace_here t Experiment.baseline Split.eval rows = refl
replace_here t Experiment.candidate Split.train rows = refl
replace_here t Experiment.candidate Split.eval rows = refl

pub replace-Holds :
    (t : Table) (e : Experiment) (s : Split) (rows : Counter) (ds : List String)
    → Holds rows ds
    → Holds (replace t e s rows e s) ds
replace-Holds t e s rows ds h = rw replace_here h

pub replace-Kept :
    (job : Job) (earlier t : Table) (rows : Counter)
    → Kept job earlier t
    → Kept job earlier (replace t job.experiment job.split rows)
unfolding replace
replace-Kept job earlier t rows kept e s apart = rw apart (kept e s apart)

-- A batch is written as a whole, or is full, whether or not it was written.
abbrev pub Added : Job → Table → List String → List String → Option ℕ × Spill → Type 0
Added job earlier stored batch (some n, store) =
    (n ≡ length batch)
    × Holds (store.table job.experiment job.split) (stored ++ batch)
    × Kept job earlier store.table
Added job earlier stored batch (none, store) =
    (later : List String) × Holds (store.table job.experiment job.split) later
    × (length stored ≤ length later)
    × (length later ≤ length stored + length batch)
    × Begins later (stored ++ batch)
    × Kept job earlier store.table

pub add_batch-Added :
    (job : Job) (earlier : Table) (stored batch : List String) (store : Spill)
    → Holds (store.table job.experiment job.split) stored
    → Kept job earlier store.table
    → Added job earlier stored batch (add_batch job.database job.experiment job.split batch store)
unfolding add_batch
add_batch-Added job earlier stored [] store h kept = (refl, rw append-nil h, kept)
add_batch-Added job earlier stored (d ∷ batch) store h kept =
    let rows =
      upsert (store.table job.experiment job.split) (hash_count_evidence (counter (d ∷ batch))) in
    let after : Holds (replace store.table job.experiment job.split rows job.experiment job.split)
        (stored ++ d ∷ batch) =
      replace-Holds store.table job.experiment job.split rows _
        (upsert-Holds _ stored (d ∷ batch) h) in
    let kept' = replace-Kept job earlier store.table rows kept in
    let same : (length stored ≤ length stored)
        × (length stored ≤ length stored + length (d ∷ batch)) =
      omega arith in
    elim (Bool-cases store.exhausted) [
      | inl e ↦ rw e (stored, h, same.0, same.1, (d ∷ batch, refl), kept)
      | inr e ↦ elim (Bool-cases (job.database.accepts store.batches)) [
        | inr f ↦ rw (e, f) (stored, h, same.0, same.1, (d ∷ batch, refl), kept)
        | inl f ↦ elim (Bool-cases (ltb store.maximum_bytes (job.database.size store.batches))) [
          | inl g ↦
              rw (e, f, g)
                (
                  stored ++ d ∷ batch,
                  after,
                  omega (arith, length-append stored (d ∷ batch)),
                  omega (arith, length-append stored (d ∷ batch)),
                  ([], append-nil _),
                  kept',
                )
          | inr g ↦ rw (e, f, g) (refl, after, kept')
        ]
      ]
    ]
