-- ===== src/Streaming/Datasets/Recorded.antt =====
-- `_scan_dataset`: what the rows of the split are after a scan, as its report says.
use claim_ci.Prelude.{
  ◌≤◌, ◌<◌, ◌≡◌, refl, ap, ◌∙◌, sym, subst, Bool, true, false, not, ◌&&◌, ltb, ◌==◌, if◌then◌else◌,
  Option, none, some, List, [], String, str_eq, and_split, length, arith, Bool-cases, inl, inr,
}
use mathlib.Core.List.{append-nil}
use claim_ci.Prelude.Optional.{◌>>=◌, >>=-eq-some, some-injective, passed}
use claim_ci.Streaming.Report.{
  is_failed_state, is_complete_state, is_complete, ScanCompleteness, scan_completeness,
}
use claim_ci.Streaming.Framing.{framed, bytes_of, binary_lines-framed}
use claim_ci.Streaming.Scan.{Source, Ending, ArtifactScan, report_of, finish, finish_drained, drain}
use claim_ci.Streaming.Store.{Table, Spill}
use claim_ci.Streaming.Tables.{Holds}
use claim_ci.Streaming.Indexing.{
  Job, Progress, Outcome, continues, stops, full, raises, index_records,
}
use claim_ci.Streaming.Indexing.Digests.{
  digests_of, digests_of-given, readable_digests, readable_digests-given, readable_digests-all,
  Begins, Kept,
}
use claim_ci.Streaming.Indexing.Looping.{Indexes-Holding}
use claim_ci.Streaming.Datasets.{
  Closed, DatasetSplitScan, dataset_split_scan, handle, close, finish_closed, split_scan_of,
  scan_of, scan_dataset, empty_handed,
}
use claim_ci.Streaming.Datasets.Closing.{
  steps_of, Settled, Ended, handle-Settles, index_records-Ended,
}

-- The hashes of the records of a file, cut into lines as a whole
unfoldable pub file_digests : Job → Source → Option (List String)
unfolding digests_of framed bytes_of
file_digests job source =
    digests_of job (framed job.limits.max_logical_record_bytes [] (bytes_of source.blocks))

-- The hashes of its first records, up to one that is not accepted or to a line that is too long
unfoldable pub file_readable_digests : Job → Source → List String
unfolding readable_digests framed bytes_of
file_readable_digests job source =
    readable_digests job (framed job.limits.max_logical_record_bytes [] (bytes_of source.blocks))

-- What a returned scan says of the rows of its split.
pub record Recorded (job : Job) (source : Source) (earlier later : Table) (s : DatasetSplitScan)
    : Type 0 where
  pub digests : List String
  -- each digest is counted once for each of these records
  pub holds : Holds (later job.experiment job.split) digests
  -- which are the first records of the file
  pub early : Begins digests (file_readable_digests job source)
  pub at_least_indexed : s.indexed_records ≤ length digests
  pub at_most_scanned : length digests ≤ s.completeness.records_scanned
  -- a complete scan has stored every record of the file, and there is one
  pub complete :
      is_complete s.completeness ≡ true
      → (file_digests job source ≡ some digests)
        × (s.indexed_records ≡ length digests)
        × (s.completeness.records_scanned ≡ length digests)
        × (0 < length digests)
  -- a failed scan has left none
  pub failed : is_failed_state s.completeness.state ≡ true → digests ≡ []
  pub role : (s.experiment ≡ job.experiment) × (s.split ≡ job.split)
  -- the other splits are as they were
  pub kept : Kept job earlier later

scan_completeness-eq : (c d : ScanCompleteness) → scan_completeness c ≡ some d → c ≡ d
unfolding scan_completeness
scan_completeness-eq c d h =
    let (_, h1) =
      passed (c.integrity_verified && not (c.integrity_bytes == c.expected_bytes)) _ h in
    let (_, h2) = passed (ltb c.integrity_bytes c.semantic_bytes) _ h1 in
    kept_both (is_complete c) _ _ h2
  where
    kept_both :
        (b x y : Bool)
        → (if b then (if x then none else some c) else if y then none else some c) ≡ some d
        → c ≡ d
    kept_both true x y e = some-injective (passed x _ e).1
    kept_both false x y e = some-injective (passed y _ e).1

drained_report :
    (job : Job) (source : Source) (ending : Ending) (scan : ArtifactScan)
    (report : ScanCompleteness)
    → finish_drained job.codec source ending scan ≡ some report
    → ((not ending.semantic_complete && is_complete_state ending.state) ≡ false)
      × (report_of source ending scan ≡ report)
unfolding finish_drained
drained_report job source ending scan report h =
    let (_, h1) = passed (not source.stable) _ h in
    let (_, h2) = passed (not (scan.integrity_bytes == source.size)) _ h1 in
    let (_, h3) = passed (not (str_eq (job.codec.sha256 scan.taken) source.sha256)) _ h2 in
    let (e, h4) = passed (not ending.semantic_complete && is_complete_state ending.state) _ h3 in
    (e, scan_completeness-eq _ _ h4)

-- The report says what `finish` was told.
Reports : Ending → ScanCompleteness → Type 0
Reports ending report =
    (report.records_scanned ≡ ending.records_scanned)
    × (is_complete report ≡ ending.semantic_complete)
    × (is_failed_state report.state
        ≡ (not ending.semantic_complete && is_failed_state ending.state))

report_of-Reports :
    (source : Source) (ending : Ending) (scan : ArtifactScan)
    → (not ending.semantic_complete && is_complete_state ending.state) ≡ false
    → Reports ending (report_of source ending scan)
unfolding Reports
report_of-Reports source ending scan e = elim (Bool-cases ending.semantic_complete) [
  | inl f ↦ rw f (refl, refl, refl)
  | inr f ↦ rw f (refl, ground arith, refl)
]

finish-Reports :
    (job : Job) (source : Source) (c : Closed) (report : ScanCompleteness) (t : String)
    → finish_closed job source c ≡ some (report, t)
    → Reports c.ending report
unfolding finish
finish-Reports job source c report t h =
    let traced : ArtifactScan → ScanCompleteness → Option (ScanCompleteness × String) =
      λ scan r. some (r, job.codec.trace_sha256 scan.taken) in
    let (scan, _, h1) =
      >>=-eq-some (drain job.limits c.progress.scan.unread c.progress.scan)
        (λ scan. finish_drained job.codec source c.ending scan >>= traced scan) h in
    let (r, drained, h2) =
      >>=-eq-some (finish_drained job.codec source c.ending scan) (traced scan) h1 in
    let (e, same) = drained_report job source c.ending scan r drained in
    subst (λ x. Reports c.ending x)
      (same
        ∙ ap (λ (x : ScanCompleteness × String). x.0)
            (some-injective {a = (r, job.codec.trace_sha256 scan.taken)} {b = (report, t)} h2))
      (report_of-Reports source c.ending scan e)

-- The ending that a report was made from, with the store behind it.
Closes : Job → Source → Table → Option (ScanCompleteness × String) × Progress → Type 0
Closes job source earlier (none, p) = Unit
Closes job source earlier (some (report, t), p) =
    (ending : Ending) × Reports ending report × Settled job earlier (steps_of job source) ending p

handled-Closes :
    (job : Job) (source : Source) (earlier : Table) (c : Closed)
    (o : Option (ScanCompleteness × String))
    → finish_closed job source c ≡ o
    → Settled job earlier (steps_of job source) c.ending c.progress
    → Closes job source earlier (o, c.progress)
unfolding Closes
handled-Closes job source earlier c none h settled = tt
handled-Closes job source earlier c (some (report, t)) h settled =
    (c.ending, finish-Reports job source c report t h, settled)

close-Closes :
    (job : Job) (source : Source) (earlier : Table) (o : Outcome)
    → Ended job earlier (steps_of job source) o
    → Closes job source earlier (close job source o)
unfolding close
close-Closes job source earlier (continues p) h =
    go (finish_closed job source (handle job (continues p))) refl
  where
    settled_again :
        Settled job earlier
          (steps_of job source)
          (handle job (raises p)).ending
          (handle job (raises p)).progress
    settled_again = handle-Settles job earlier (steps_of job source) (raises p) (
        Indexes-Holding job earlier (readable_digests job (steps_of job source))
          ([], append-nil h.0 ∙ sym (readable_digests-all job (steps_of job source) h.1)) h.2)

    go :
        (o : Option (ScanCompleteness × String))
        → finish_closed job source (handle job (continues p)) ≡ o
        → Closes job source earlier (elim o [
          | none ↦
              (finish_closed job source (handle job (raises p)), (handle job (raises p)).progress)
          | some report ↦ (some report, p)
        ])
    go none e = handled-Closes job source earlier (handle job (raises p)) _ refl settled_again
    go (some (report, t)) e =
        unfold Closes in
        (
          (handle job (continues p)).ending,
          finish-Reports job source (handle job (continues p)) report t e,
          settled_first,
        )
      where
        settled_first :
            Settled job earlier (steps_of job source) (handle job (continues p)).ending p
        settled_first =
            unfold handle in handle-Settles job earlier (steps_of job source) (continues p) h
close-Closes job source earlier (stops reason p) h =
    handled-Closes job source earlier (handle job (stops reason p)) _ refl
      (handle-Settles job earlier (steps_of job source) (stops reason p) h)
close-Closes job source earlier (full p) h =
    handled-Closes job source earlier (handle job (full p)) _ refl
      (handle-Settles job earlier (steps_of job source) (full p) h)
close-Closes job source earlier (raises p) h =
    handled-Closes job source earlier (handle job (raises p)) _ refl
      (handle-Settles job earlier (steps_of job source) (raises p) h)

dataset_split_scan-eq : (s t : DatasetSplitScan) → dataset_split_scan s ≡ some t → s ≡ t
unfolding dataset_split_scan
dataset_split_scan-eq s t h =
    let (_, h1) = passed (not (s.artifact_size == s.completeness.expected_bytes)) _ h in
    let (_, h2) = passed (ltb s.completeness.records_scanned s.indexed_records) _ h1 in
    let (_, h3) = passed (not s.completeness.integrity_verified) _ h2 in some-injective h3

steps-file_digests :
    (job : Job) (source : Source) → digests_of job (steps_of job source) ≡ file_digests job source
unfolding file_digests
steps-file_digests job source =
    sym (digests_of-given job (steps_of job source))
    ∙ ap (digests_of job) (binary_lines-framed job.limits.max_logical_record_bytes source.blocks)

steps-file_readable_digests :
    (job : Job) (source : Source)
    → readable_digests job (steps_of job source) ≡ file_readable_digests job source
unfolding file_readable_digests
steps-file_readable_digests job source =
    sym (readable_digests-given job (steps_of job source))
    ∙ ap (readable_digests job)
        (binary_lines-framed job.limits.max_logical_record_bytes source.blocks)

Settled-Recorded :
    (job : Job) (source : Source) (earlier : Table) (ending : Ending) (report : ScanCompleteness)
    (t : String) (p : Progress)
    → Reports ending report
    → Settled job earlier (steps_of job source) ending p
    → Recorded job source earlier p.store.table (split_scan_of job source p (report, t))
unfolding Reports
Settled-Recorded job source earlier ending report t p (scanned, whole, broken) h = record {
  digests = h.digests;
  holds = h.holds;
  early = subst (Begins h.digests) (steps-file_readable_digests job source) h.early;
  at_least_indexed = h.enough;
  at_most_scanned = omega (arith, scanned, h.bounded);
  complete = λ e.
      let a = h.all_read (sym whole ∙ e) in
      (
        sym (steps-file_digests job source) ∙ a.read,
        a.indexed_all,
        scanned ∙ a.counted,
        a.some_records,
      );
  failed = λ e.
      let f = and_split {a = not ending.semantic_complete} (sym broken ∙ e) in
      h.none_left (ground (arith, f.0)) f.1;
  role = (refl, refl);
  kept = h.kept;
}

closed-Recorded :
    (job : Job) (source : Source) (earlier : Table)
    (o : Option (ScanCompleteness × String) × Progress)
    → Closes job source earlier o
    → (s : DatasetSplitScan) → (scan_of job source o).0 ≡ some s
    → Recorded job source earlier (scan_of job source o).1.table s
unfolding scan_of Closes
closed-Recorded job source earlier (none, p) h s e = cc
closed-Recorded job source earlier (some (report, t), p) (ending, r, settled) s e =
    subst (λ x. Recorded job source earlier p.store.table x) (dataset_split_scan-eq _ _ e)
      (Settled-Recorded job source earlier ending report t p r settled)

when_jsonl :
    (job : Job) (source : Source) (store : Spill) (s : DatasetSplitScan) (b : Bool)
    (r : Option DatasetSplitScan × Spill)
    → (r.0 ≡ some s → Recorded job source store.table r.1.table s)
    → (if b then r else (none, store)).0 ≡ some s
    → Recorded job source store.table (if b then r else (none, store)).1.table s
when_jsonl job source store s true r h e = h e
when_jsonl job source store s false r h e = cc

-- When a scan of a file into a store without rows for the split returns, the rows count every digest as
-- often as it occurs in a list, which is the hashes of the first records of the file, in order,
-- whatever blocks it was read in: the list does not go past a record that is not accepted or a line
-- that is too long, it is no shorter than the indexed records and no longer than the scanned ones. If
-- the scan is complete, the list is the hashes of all records of the file, and there is one; if the
-- scan failed, the list is empty. The other splits keep their rows.
pub scan_dataset-Recorded :
    (job : Job) (source : Source) (store : Spill) (s : DatasetSplitScan)
    → store.table job.experiment job.split ≡ []
    → (scan_dataset job source store).0 ≡ some s
    → Recorded job source store.table (scan_dataset job source store).1.table s
unfolding scan_dataset
scan_dataset-Recorded job source store s fresh h =
    when_jsonl job source store s source.is_jsonl_dataset
      (scan_of job source (close job source (index_records job source (empty_handed store source))))
      (closed-Recorded job source store.table _
        (close-Closes job source store.table _ (index_records-Ended job source store fresh)) s)
      h
