-- ===== src/Streaming/Datasets/Closing.antt =====
-- What the store holds when the scan of a file is reported, however it ended.
use claim_ci.Prelude.{
  ℕ, ◌≤◌, ◌<◌, ◌≡◌, refl, ap, ◌∙◌, sym, subst, Bool, if◌then◌else◌, true, false, ◌==◌, some, List,
  [], ◌++◌, String, length, arith, Bool-cases, inl, inr,
}
use mathlib.Core.List.{append-nil}
use claim_ci.Streaming.Report.{Stop, is_failed_state}
use claim_ci.Streaming.Lines.{Step, binary_lines}
use claim_ci.Streaming.Scan.{Source, Ending}
use claim_ci.Streaming.Store.{Table, Spill, delete_split}
use claim_ci.Streaming.Tables.{Holds, nil-Holds}
use claim_ci.Streaming.Indexing.{
  Job, Progress, Outcome, continues, stops, full, raises, ◌then◌, flush, index_lines, index_records,
  require_records,
}
use claim_ci.Streaming.Indexing.Digests.{
  digests_of, readable_digests, readable_digests-all, Begins, Kept, Indexes, Holding,
}
use claim_ci.Streaming.Indexing.Progressing.{replace-Holds, replace-Kept}
use claim_ci.Streaming.Indexing.Looping.{
  Indexes-Holding, Flushed, flush-Flushed, After, index_lines-After,
}
use claim_ci.Streaming.Datasets.{
  Closed, closed, handle, flush_rest, dropped, scratch_stop, failed_stop, empty_handed,
}

-- The steps of a file's lines.
abbrev pub steps_of : Job → Source → List Step
steps_of job source = binary_lines job.limits.max_logical_record_bytes source.blocks

-- All records were read, and all are stored.
pub record All (job : Job) (steps : List Step) (digests : List String) (records indexed : ℕ)
    : Type 0 where
  pub read : digests_of job steps ≡ some digests
  pub counted : records ≡ length digests
  pub indexed_all : indexed ≡ length digests
  pub some_records : 0 < length digests

-- The store behind a report: it holds what is indexed, all records if the report is complete, and
-- none if it failed.
pub record Settled (job : Job) (earlier : Table) (steps : List Step) (ending : Ending)
    (p : Progress) : Type 0 where
  pub digests : List String
  pub holds : Holds (p.store.table job.experiment job.split) digests
  pub enough : p.indexed ≤ length digests
  pub bounded : length digests ≤ ending.records_scanned
  pub early : Begins digests (readable_digests job steps)
  pub kept : Kept job earlier p.store.table
  pub all_read :
      ending.semantic_complete ≡ true → All job steps digests ending.records_scanned p.indexed
  pub none_left :
      ending.semantic_complete ≡ false → is_failed_state ending.state ≡ true → digests ≡ []

module _ (job : Job) (earlier : Table) (steps : List Step) where
  -- Before the handlers.
  abbrev pub Ended : Outcome → Type 0
  Ended (continues q) =
      (es : List String) × (digests_of job steps ≡ some es)
      × Indexes job earlier es q
      × (q.pending ≡ [])
      × (0 < q.records)
  Ended (stops reason q) =
      (es : List String) × Begins es (readable_digests job steps) × Indexes job earlier es q
  Ended (full q) = Holding job earlier (readable_digests job steps) q
  Ended (raises q) = Holding job earlier (readable_digests job steps) q

  abbrev Settles : Closed → Type 0
  Settles c = Settled job earlier steps c.ending c.progress

  dropped-Settles :
      (reason : Stop) (p : Progress)
      → Holding job earlier (readable_digests job steps) p
      → Settles (closed job reason (dropped job p))
  dropped-Settles reason p h = record {
    digests = [];
    holds =
        unfold delete_split in replace-Holds p.store.table job.experiment job.split [] [] nil-Holds;
    enough = omega arith;
    bounded = omega arith;
    early = (readable_digests job steps, refl);
    kept = unfold delete_split in replace-Kept job earlier p.store.table [] h.kept;
    all_read = λ e. absurd cc;
    none_left = λ e f. refl;
  }

  held-Settles :
      (reason : Stop) (p : Progress)
      → is_failed_state reason.state ≡ false
      → Holding job earlier (readable_digests job steps) p
      → Settles (closed job reason p)
  held-Settles reason p e h = record {
    digests = h.stored;
    holds = h.holds;
    enough = h.enough;
    bounded = h.bounded;
    early = h.early;
    kept = h.kept;
    all_read = λ f. absurd cc;
    none_left = λ f g. absurd cc;
  }

  flush_rest-Settles :
      (reason : Stop) (p : Progress) (es : List String)
      → is_failed_state reason.state ≡ false
      → Begins es (readable_digests job steps)
      → Indexes job earlier es p
      → Settles (flush_rest job reason p)
  unfolding flush_rest
  flush_rest-Settles reason p es e b i =
      go (flush job p) (flush-Flushed job earlier (readable_digests job steps) p b i)
    where
      go :
          (o : Outcome)
          → Flushed job earlier (readable_digests job steps) es o
          → Settles (elim o [
            | full q ↦ closed job scratch_stop q
            | continues q ↦ closed job reason q
            | stops other q ↦ closed job other q
            | raises q ↦ closed job reason q
          ])
      go (full q) h = held-Settles scratch_stop q refl h
      go (continues q) (j, _) =
          held-Settles reason q e (Indexes-Holding job earlier (readable_digests job steps) b j)
      go (stops other q) h = absurd h
      go (raises q) h = absurd h

  pub handle-Settles : (o : Outcome) → Ended o → Settles (handle job o)
  unfolding handle
  handle-Settles (continues p) (es, e, i, done, some_records) =
      let whole : es ≡ i.stored = i.parts ∙ ap (λ t. i.stored ++ t) done ∙ append-nil i.stored in
      record {
        digests = es;
        holds = subst (λ t. Holds (p.store.table job.experiment job.split) t) (sym whole) i.holds;
        enough = omega (arith, i.written, ap length whole);
        bounded = omega (arith, i.counted);
        early = ([], append-nil es ∙ sym (readable_digests-all job steps e));
        kept = i.kept;
        all_read = λ f. record {
          read = e;
          counted = i.counted;
          indexed_all = omega (arith, i.written, ap length whole);
          some_records = omega (arith, i.counted);
        };
        none_left = λ f. absurd cc;
      }
  handle-Settles (full p) h = record {
    digests = h.stored;
    holds = h.holds;
    enough = h.enough;
    bounded = h.bounded;
    early = h.early;
    kept = h.kept;
    all_read = λ f. absurd cc;
    none_left = λ f g. absurd cc;
  }
  handle-Settles (stops reason p) (es, b, i) = elim (Bool-cases (is_failed_state reason.state)) [
    | inl e ↦
        rw e
          (dropped-Settles reason p (Indexes-Holding job earlier (readable_digests job steps) b i))
    | inr e ↦ rw e (flush_rest-Settles reason p es e b i)
  ]
  handle-Settles (raises p) h = dropped-Settles failed_stop p h

  counted_some :
      (es : List String) (p : Progress)
      → digests_of job steps ≡ some es
      → Indexes job earlier es p
      → p.pending ≡ []
      → Ended (require_records p)
  counted_some es p e i done = elim (Bool-cases (p.records == 0)) [
    | inl z ↦ rw z (es, ([], append-nil es ∙ sym (readable_digests-all job steps e)), i)
    | inr z ↦ rw z (es, e, i, done, ground arith)
  ]

  Flushed-Ended :
      (es : List String) (o : Outcome)
      → digests_of job steps ≡ some es
      → Flushed job earlier (readable_digests job steps) es o
      → Ended (o then require_records)
  Flushed-Ended es (continues p) e (i, done) = counted_some es p e i done
  Flushed-Ended es (full p) e h = h
  Flushed-Ended es (stops reason p) e h = absurd h
  Flushed-Ended es (raises p) e h = absurd h

  either-Ended : (b : Bool) (o r : Outcome) → Ended o → Ended r → Ended (if b then o else r)
  either-Ended true o r h k = h
  either-Ended false o r h k = k

  pub looped-Ended :
      (o : Outcome)
      → After job earlier (readable_digests job steps) [] (digests_of job steps) o
      → Ended (o then flush job then require_records)
  looped-Ended (continues p) (es, e, i) = Flushed-Ended es (flush job p) e (
      flush-Flushed job earlier (readable_digests job steps) p
        ([], append-nil es ∙ sym (readable_digests-all job steps e)) i)
  looped-Ended (stops reason p) a = a
  looped-Ended (full p) h = h
  looped-Ended (raises p) h = h

fresh-Indexes :
    (job : Job) (source : Source) (store : Spill)
    → store.table job.experiment job.split ≡ []
    → Indexes job store.table [] (empty_handed store source)
fresh-Indexes job source store fresh = record {
  stored = [];
  holds = rw fresh nil-Holds;
  parts = refl;
  counted = refl;
  written = refl;
  kept = λ e s apart. refl;
}

-- The `try` block ends so, in a store without rows for the split.
pub index_records-Ended :
    (job : Job) (source : Source) (store : Spill)
    → store.table job.experiment job.split ≡ []
    → Ended job store.table
        (steps_of job source)
        (index_records job source (empty_handed store source))
unfolding index_records
index_records-Ended job source store fresh =
    let start = fresh-Indexes job source store fresh in
    either-Ended job store.table (steps_of job source) store.exhausted _ _
      ([], (readable_digests job (steps_of job source), refl), start)
      (looped-Ended job store.table (steps_of job source)
        (index_lines job (steps_of job source) (empty_handed store source))
        (index_lines-After job store.table (readable_digests job (steps_of job source)) []
          (steps_of job source) (empty_handed store source) ([], append-nil _) start))
