-- ===== src/Streaming/Store.antt =====
-- `_DatasetSpill` of claimci/analysis/streaming_dataset.py: a table from (experiment, split, digest) to
-- a multiplicity. The table is kept per experiment and split as a counter, which has one entry for
-- each digest, as the primary key demands. What SQLite and the file system do is a parameter.
use claim_ci.Prelude.{
  ℕ, zero, suc, ◌+◌, ◌-◌, ◌≡◌, refl, Bool, true, false, not, ◌&&◌, ltb, max, Option, none, some,
  List, [], ◌∷◌, map, String, length, if◌then◌else◌,
}
use claim_ci.Counter.{Counter, counter, count_of, has_key, increase, keys, total, sorted}
use claim_ci.Dataset.{hash_count_evidence}

pub data Experiment : Type 0 where
  baseline : Experiment
  candidate : Experiment

pub data Split : Type 0 where
  train : Split
  eval : Split

abbrev pub eq_experiment : Experiment → Experiment → Bool
eq_experiment Experiment.baseline Experiment.baseline = true
eq_experiment Experiment.candidate Experiment.candidate = true
eq_experiment _ _ = false

abbrev pub eq_split : Split → Split → Bool
eq_split Split.train Split.train = true
eq_split Split.eval Split.eval = true
eq_split _ _ = false

abbrev pub Table : Type 0
Table = Experiment → Split → Counter

abbrev pub empty_table : Table
empty_table e s = []

-- The table with other rows for one split.
unfoldable pub replace : Table → Experiment → Split → Counter → Table
replace table e s rows e' s' = if eq_experiment e e' && eq_split s s' then rows else table e' s'

-- The history of the database: whether the batch with this number is written and committed, and the
-- size of the files after it.
pub record Database : Type 0 where
  pub accepts : ℕ → Bool
  pub size : ℕ → ℕ

pub record Spill : Type 0 where
  pub table : Table
  pub maximum_bytes : ℕ
  pub peak_bytes : ℕ
  pub exhausted : Bool
  pub batches : ℕ

-- `_UPSERT_SQL` for each row
unfoldable pub upsert : Counter → List (String × ℕ) → Counter
unfolding increase
upsert rows [] = rows
upsert rows ((digest, multiplicity) ∷ parameters) =
    upsert (increase digest multiplicity rows) parameters

-- The store after its batch is committed, and its files are measured.
abbrev pub written : Database → Experiment → Split → Counter → Spill → Spill
written db e s rows store = record store {
  table = replace store.table e s rows;
  peak_bytes = max store.peak_bytes (db.size store.batches);
  batches = suc store.batches;
}

-- `add_batch`; `none` is `_ScratchFull`. A batch that SQLite refuses is rolled back. One that is
-- committed and only then found too large stays in the table.
unfoldable pub add_batch : Database → Experiment → Split → List String → Spill → Option ℕ × Spill
unfolding upsert replace hash_count_evidence counter
add_batch db e s [] store = (some 0, store)
add_batch db e s (digest ∷ digests) store =
    let rows = upsert (store.table e s) (hash_count_evidence (counter (digest ∷ digests))) in
    if store.exhausted
    then (none, store)
    else if not (db.accepts store.batches)
    then (none, record store { exhausted = true; batches = suc store.batches })
    else if ltb store.maximum_bytes (db.size store.batches)
    then (none, record (written db e s rows store) { exhausted = true })
    else (some (length (digest ∷ digests)), written db e s rows store)

-- `_DELETE_SPLIT_SQL`
unfoldable pub delete_split : Experiment → Split → Spill → Spill
unfolding replace
delete_split e s store = record store { table = replace store.table e s [] }

-- `_COUNT_SQL`
unfoldable pub count_rows : Table → Experiment → Split → ℕ
unfolding total
count_rows table e s = total (table e s)

abbrev pub smaller : ℕ → ℕ → ℕ
smaller a b = if ltb a b then a else b

-- The rows of the join of two splits over the digest: a digest and both multiplicities.
unfoldable pub join : Counter → Counter → List (String × (ℕ × ℕ))
unfolding has_key count_of
join [] other = []
join ((digest, multiplicity) ∷ rows) other =
    let rest = join rows other in
    if has_key digest other then (digest, (multiplicity, count_of digest other)) ∷ rest else rest

-- `SUM(CASE WHEN a < b THEN a ELSE b END)`
unfoldable pub shared_total : List (String × (ℕ × ℕ)) → ℕ
shared_total [] = 0
shared_total ((digest, (a, b)) ∷ rows) = smaller a b + shared_total rows

-- `LIMIT`
abbrev pub limit {ℓ} : {A : Type ℓ} → ℕ → List A → List A
limit zero xs = []
limit (suc n) [] = []
limit (suc n) (x ∷ xs) = x ∷ limit n xs

abbrev pub joined_digest : String × (ℕ × ℕ) → String
joined_digest row = row.0

-- `_SIDE_ONLY_PREVIEW_SQL` before its order and its limit: what one side has more often
unfoldable pub side_only : Counter → Counter → Counter
unfolding count_of
side_only [] other = []
side_only ((digest, multiplicity) ∷ rows) other =
    let rest = side_only rows other in
    if ltb (count_of digest other) multiplicity
    then (digest, multiplicity - count_of digest other) ∷ rest
    else rest

-- `_SIDE_ONLY_COUNT_SQL`
unfoldable pub side_only_total : Counter → Counter → ℕ
unfolding count_of
side_only_total [] other = 0
side_only_total ((digest, multiplicity) ∷ rows) other =
    (if ltb (count_of digest other) multiplicity then multiplicity - count_of digest other else 0)
    + side_only_total rows other

pub record Overlap : Type 0 where
  pub train_count : ℕ
  pub eval_count : ℕ
  pub overlap_count : ℕ
  pub overlapping_hashes : List String
  pub overlapping_distinct_count : ℕ

-- `overlap_fact`
unfoldable pub overlap_fact : Table → Experiment → ℕ → Overlap
unfolding join shared_total count_rows sorted
overlap_fact table e preview_limit =
    let rows = join (table e Split.train) (table e Split.eval) in
    record {
      train_count = count_rows table e Split.train;
      eval_count = count_rows table e Split.eval;
      overlap_count = shared_total rows;
      overlapping_hashes = limit preview_limit (sorted (map joined_digest rows));
      overlapping_distinct_count = length rows;
    }

-- The SHA-256 of the ordered entries, written as JSON.
abbrev pub EntriesHash : Type 0
EntriesHash = List (String × ℕ) → String

pub record DatasetMultisetIdentity : Type 0 where
  pub record_count : ℕ
  pub canonical_sha256 : String

-- `multiset_identity`; `none` where `_from_store` raises, which it does without a record
unfoldable pub multiset_identity : EntriesHash → Counter → Option DatasetMultisetIdentity
unfolding hash_count_evidence total
multiset_identity hash rows =
    if ltb 0 (total rows)
    then some
        (record { record_count = total rows; canonical_sha256 = hash (hash_count_evidence rows) })
    else none

pub record Alignment : Type 0 where
  pub baseline : DatasetMultisetIdentity
  pub candidate : DatasetMultisetIdentity
  pub matching_count : ℕ
  pub baseline_only_count : ℕ
  pub candidate_only_count : ℕ
  pub baseline_only : List (String × ℕ)
  pub candidate_only : List (String × ℕ)

-- `alignment_fact`
unfoldable pub alignment_fact :
    Table → DatasetMultisetIdentity → DatasetMultisetIdentity → ℕ → Alignment
unfolding join shared_total side_only_total side_only hash_count_evidence
alignment_fact table first second preview_limit =
    let b = table Experiment.baseline Split.eval in
    let c = table Experiment.candidate Split.eval in
    record {
      baseline = first;
      candidate = second;
      matching_count = shared_total (join b c);
      baseline_only_count = side_only_total b c;
      candidate_only_count = side_only_total c b;
      baseline_only = limit preview_limit (hash_count_evidence (side_only b c));
      candidate_only = limit preview_limit (hash_count_evidence (side_only c b));
    }

twice :
    upsert (("b", 1) ∷ []) (hash_count_evidence (counter ("b" ∷ "a" ∷ "b" ∷ [])))
    ≡ ("b", 3) ∷ ("a", 1) ∷ []
unfolding upsert hash_count_evidence counter sorted keys count_of
twice = refl
