-- ===== src/Streaming/Indexing/Digests.antt =====
-- The digests of the records that a scan goes over, whichever batches they are written in.
use claim_ci.Prelude.{
  ℕ, ◌≤◌, ◌≡◌, refl, sym, ap, Bool-cases, inl, inr, ◌∙◌, false, ◌&&◌, if◌then◌else◌, Option, none,
  some, List, [], ◌∷◌, ◌++◌, String, length,
}
use mathlib.Core.List.{append_assoc}
use claim_ci.Prelude.Optional.{◌>>=◌, >>=-eq-some, some-injective}
use claim_ci.Streaming.Lines.{Step, takes, notes, yields, halts}
use claim_ci.Streaming.Framing.{given}
use claim_ci.Streaming.Records.{stopped, parsed, parse_dataset_value, is_blank_bytes}
use claim_ci.Streaming.Store.{Table, eq_experiment, eq_split}
use claim_ci.Streaming.Tables.{Holds}
use claim_ci.Streaming.Indexing.{Job, Progress}

-- The hash of one record; `none` where it is not accepted or has none
unfoldable pub record_digest : Job → List ℕ → Option String
unfolding parse_dataset_value
record_digest job raw = elim (parse_dataset_value job.world job.codec job.limits raw) [
  | stopped reason ↦ none
  | parsed v ↦ job.world.hash_sample v
]

-- The hashes of all records in order; `none` where one has none, or a line is too long
unfoldable pub digests_of : Job → List Step → Option (List String)
unfolding record_digest
digests_of job [] = some []
digests_of job (takes block unread ∷ steps) = digests_of job steps
digests_of job (notes n ∷ steps) = digests_of job steps
digests_of job (yields raw n ∷ steps) =
    let rest = digests_of job steps in
    if is_blank_bytes raw
    then rest
    else record_digest job raw >>= λ digest. rest >>= λ digests. some (digest ∷ digests)
digests_of job (halts ∷ steps) = none

abbrev pub first_digest : Option String → List String → List String
first_digest none rest = []
first_digest (some digest) rest = digest ∷ rest

-- The hashes of the records in order, up to the first that has none or to a line that is too long
unfoldable pub readable_digests : Job → List Step → List String
unfolding record_digest
readable_digests job [] = []
readable_digests job (takes block unread ∷ steps) = readable_digests job steps
readable_digests job (notes n ∷ steps) = readable_digests job steps
readable_digests job (yields raw n ∷ steps) =
    let rest = readable_digests job steps in
    if is_blank_bytes raw then rest else first_digest (record_digest job raw) rest
readable_digests job (halts ∷ steps) = []

pub readable_digests-given :
    (job : Job) (steps : List Step)
    → readable_digests job (given steps) ≡ readable_digests job steps
unfolding readable_digests given
readable_digests-given job [] = refl
readable_digests-given job (takes block unread ∷ steps) = readable_digests-given job steps
readable_digests-given job (notes n ∷ steps) = readable_digests-given job steps
readable_digests-given job (yields raw n ∷ steps) = rw (readable_digests-given job steps)
readable_digests-given job (halts ∷ steps) = refl

-- Where all records can be read, these are the hashes of all of them.
pub readable_digests-all :
    (job : Job) (steps : List Step) {ds : List String}
    → digests_of job steps ≡ some ds
    → readable_digests job steps ≡ ds
unfolding digests_of readable_digests
readable_digests-all job [] h = some-injective h
readable_digests-all job (takes block unread ∷ steps) h = readable_digests-all job steps h
readable_digests-all job (notes n ∷ steps) h = readable_digests-all job steps h
readable_digests-all job (yields raw n ∷ steps) h = elim (Bool-cases (is_blank_bytes raw)) [
  | inl e ↦ rw e (readable_digests-all job steps (rw e at h))
  | inr e ↦
      let (d, first, h1) =
        >>=-eq-some (record_digest job raw)
          (λ digest. digests_of job steps >>= λ digests. some (digest ∷ digests)) (rw e at h) in
      let (more, rest, h2) =
        >>=-eq-some (digests_of job steps) (λ digests. some (d ∷ digests)) h1 in
      rw (e, first) (ap (λ t. d ∷ t) (readable_digests-all job steps rest) ∙ some-injective h2)
]
readable_digests-all job (halts ∷ steps) h = cc

pub digests_of-given :
    (job : Job) (steps : List Step) → digests_of job (given steps) ≡ digests_of job steps
unfolding digests_of given
digests_of-given job [] = refl
digests_of-given job (takes block unread ∷ steps) = digests_of-given job steps
digests_of-given job (notes n ∷ steps) = digests_of-given job steps
digests_of-given job (yields raw n ∷ steps) = rw (digests_of-given job steps)
digests_of-given job (halts ∷ steps) = refl

-- The rows of the other splits are those of an earlier table.
abbrev pub Kept : Job → Table → Table → Type 0
Kept job earlier table =
    (e : _) (s : _)
    → (eq_experiment job.experiment e && eq_split job.split s) ≡ false
    → table e s ≡ earlier e s

-- The second list begins with the first.
abbrev pub Begins : List String → List String → Type 0
Begins xs ys = (rest : List String) × (xs ++ rest ≡ ys)

pub Begins-part : (xs ys zs : List String) → Begins (xs ++ ys) zs → Begins xs zs
Begins-part xs ys zs (rest, e) = (ys ++ rest, sym (append_assoc xs ys rest) ∙ e)

-- The store holds the digests that were written; the others are pending.
pub record Indexes (job : Job) (earlier : Table) (digests : List String) (p : Progress)
    : Type 0 where
  pub stored : List String
  pub holds : Holds (p.store.table job.experiment job.split) stored
  pub parts : digests ≡ stored ++ p.pending
  pub counted : p.records ≡ length digests
  pub written : p.indexed ≡ length stored
  pub kept : Kept job earlier p.store.table

-- What is left of it when a batch was not accepted: the store holds all that is counted as indexed,
-- and no more than was read, which are the first of the digests that can be read.
pub record Holding (job : Job) (earlier : Table) (readable : List String) (p : Progress)
    : Type 0 where
  pub stored : List String
  pub holds : Holds (p.store.table job.experiment job.split) stored
  pub enough : p.indexed ≤ length stored
  pub bounded : length stored ≤ p.records
  pub early : Begins stored readable
  pub kept : Kept job earlier p.store.table
