-- ===== src/Streaming/Check/Streams.antt =====
-- `stream_dataset_audit_context`: what its scans and its store say of the four files.
use claim_ci.Prelude.{
  ℕ, ◌<◌, ◌≡◌, refl, sym, subst, Bool, true, false, all, keep, if◌then◌else◌, Option, none, some,
  List, [], ◌∷◌, String, length, arith,
}
use claim_ci.Prelude.Optional.{◌>>=◌, >>=-eq-some, some-injective}
use claim_ci.Models.{Finding, OverlapSummary, DatasetHashes}
use claim_ci.Streaming.Report.{is_complete}
use claim_ci.Streaming.Store.{Experiment, Split, Table, EntriesHash}
use claim_ci.Streaming.Tables.{Holds}
use claim_ci.Streaming.Datasets.{DatasetSplitScan}
use claim_ci.Streaming.Datasets.Recorded.{file_digests}
use claim_ci.Streaming.Context.{
  DatasetScanAuditContext, scan, is_for, only, Sources, Paths, Setting, job_of, roles, scan_all,
  new_store, context_of, fixed_paths, share_head, stream_dataset_audit_context,
}
use claim_ci.Streaming.Check.{check_streaming_dataset_context}
use claim_ci.Streaming.Check.Refines.{Streamed, Separates, Agrees, memory_findings, Streamed-Agrees}
use claim_ci.Streaming.Check.Held.{Role, same_role, Held, Scanned, scan_all-Scanned}

-- Every scan went to the end of its file.
abbrev pub AllComplete : List DatasetSplitScan → Type 0
AllComplete scans = all (λ (x : DatasetSplitScan). is_complete x.completeness) scans ≡ true

module _ (setting : Setting) (sources : Sources) where
  -- The records of each file, by its role.
  record FileRecords (context : DatasetScanAuditContext) : Type 0 where
    digests : Experiment → Split → List String
    read :
        (e : Experiment) (s : Split)
        → file_digests (job_of setting e s) (sources e s) ≡ some (digests e s)
    positive : (e : Experiment) (s : Split) → 0 < length (digests e s)
    holds : (e : Experiment) (s : Split) → Holds (context.table e s) (digests e s)
    found : Experiment → Split → DatasetSplitScan
    scans : (e : Experiment) (s : Split) → scan context e s ≡ some (found e s)
    whole : (e : Experiment) (s : Split) → is_complete (found e s).completeness ≡ true

  each_role :
      (P : Experiment → Split → Type 0)
      → P Experiment.baseline Split.train
      → P Experiment.baseline Split.eval
      → P Experiment.candidate Split.train
      → P Experiment.candidate Split.eval
      → (e : Experiment) (s : Split) → P e s
  each_role P bt be ct ce Experiment.baseline Split.train = bt
  each_role P bt be ct ce Experiment.baseline Split.eval = be
  each_role P bt be ct ce Experiment.candidate Split.train = ct
  each_role P bt be ct ce Experiment.candidate Split.eval = ce

  abbrev context_with : Paths → ℕ → List DatasetSplitScan → Table → DatasetScanAuditContext
  context_with paths limit scans table = record {
    scans = scans;
    table = table;
    active = true;
    preview_limit = limit;
    manifest_paths = paths;
  }

  is_for-role :
      (r : Role) (x : DatasetSplitScan)
      → (x.experiment ≡ r.0) × (x.split ≡ r.1)
      → (e : Experiment) (s : Split) → is_for e s x ≡ same_role (e, s) r
  is_for-role r x (h, k) e s = rw (h, k) refl

  keep-cons :
      (e : Experiment) (s : Split) (x : DatasetSplitScan) (xs : List DatasetSplitScan)
      → keep (is_for e s) (x ∷ xs)
        ≡ (if is_for e s x then x ∷ keep (is_for e s) xs else keep (is_for e s) xs)
  keep-cons e s x xs = refl

  abbrev keep_at : Experiment → Split → List (Role × DatasetSplitScan) → List DatasetSplitScan
  keep_at e s [] = []
  keep_at e s ((r, x) ∷ keyed) =
      if same_role (e, s) r then x ∷ keep_at e s keyed else keep_at e s keyed

  abbrev keyed_scans : (w x y z : DatasetSplitScan) → List (Role × DatasetSplitScan)
  keyed_scans w x y z =
      ((Experiment.baseline, Split.train), w)
      ∷ ((Experiment.baseline, Split.eval), x)
      ∷ ((Experiment.candidate, Split.train), y)
      ∷ ((Experiment.candidate, Split.eval), z)
      ∷ []

  only_one :
      (w x y z : DatasetSplitScan) (e : Experiment) (s : Split)
      → only (keep_at e s (keyed_scans w x y z))
        ≡ some (each_role (λ e s. DatasetSplitScan) w x y z e s)
  unfolding each_role
  only_one w x y z Experiment.baseline Split.train = refl
  only_one w x y z Experiment.baseline Split.eval = refl
  only_one w x y z Experiment.candidate Split.train = refl
  only_one w x y z Experiment.candidate Split.eval = refl

  scan_role :
      (paths : Paths) (limit : ℕ) (table : Table) (w x y z : DatasetSplitScan)
      → Held setting sources (Experiment.baseline, Split.train) table w
      → Held setting sources (Experiment.baseline, Split.eval) table x
      → Held setting sources (Experiment.candidate, Split.train) table y
      → Held setting sources (Experiment.candidate, Split.eval) table z
      → (e : Experiment) (s : Split)
      → scan (context_with paths limit (w ∷ x ∷ y ∷ z ∷ []) table) e s
        ≡ some (each_role (λ e s. DatasetSplitScan) w x y z e s)
  unfolding scan
  scan_role paths limit table w x y z a b c d e s =
      rw
        (
          keep-cons,
          keep-cons,
          keep-cons,
          keep-cons,
          is_for-role _ w a.role e s,
          is_for-role _ x b.role e s,
          is_for-role _ y c.role e s,
          is_for-role _ z d.role e s,
        )
        (only_one w x y z e s)

  Scanned-FileRecords :
      (paths : Paths) (limit : ℕ) (scans : List DatasetSplitScan) (table : Table)
      → Scanned setting sources roles table scans
      → AllComplete scans
      → FileRecords (context_with paths limit scans table)
  Scanned-FileRecords paths limit [] table h complete = absurd h
  Scanned-FileRecords paths limit (w ∷ []) table h complete = absurd h.1
  Scanned-FileRecords paths limit (w ∷ x ∷ []) table h complete = absurd h.1.1
  Scanned-FileRecords paths limit (w ∷ x ∷ y ∷ []) table h complete = absurd h.1.1.1
  Scanned-FileRecords paths limit (w ∷ x ∷ y ∷ z ∷ v ∷ scans) table h complete = absurd h.1.1.1.1
  Scanned-FileRecords paths limit (w ∷ x ∷ y ∷ z ∷ []) table (a, (b, (c, (d, _)))) complete =
      let found : Experiment → Split → DatasetSplitScan =
        each_role (λ e s. DatasetSplitScan) w x y z in
      let held : (e : Experiment) (s : Split) → Held setting sources (e, s) table (found e s) =
        unfold each_role in
        each_role (λ e s. Held setting sources (e, s) table (found e s)) a b c d in
      let done : (e : Experiment) (s : Split) → is_complete (found e s).completeness ≡ true =
        unfold each_role in
        each_role (λ e s. is_complete (found e s).completeness ≡ true) (ground arith) (ground arith)
          (ground arith) (ground arith) in
      record {
        digests = λ e s. (held e s).digests;
        read = λ e s. ((held e s).whole (done e s)).0;
        positive = λ e s. ((held e s).whole (done e s)).1;
        holds = λ e s. (held e s).holds;
        found = found;
        scans = scan_role paths limit table w x y z a b c d;
        whole = done;
      }

  built-FileRecords :
      (paths : Paths) (context : DatasetScanAuditContext)
      → context_of setting sources paths ≡ some context
      → AllComplete context.scans
      → FileRecords context
  unfolding context_of
  built-FileRecords paths context h complete =
      let limit = setting.limits.max_hash_previews in
      let (scanned, e, h1) =
        >>=-eq-some (scan_all setting sources roles (new_store setting.limits.max_scratch_bytes))
          (λ (o : List DatasetSplitScan × Table). some (context_with paths limit o.0 o.1)) h in
      let same : context_with paths limit scanned.0 scanned.1 ≡ context = some-injective h1 in
      let held =
        scan_all-Scanned setting sources roles (new_store setting.limits.max_scratch_bytes)
          scanned.0 scanned.1 (refl, (refl, (refl, (refl, tt)))) (refl, (refl, (refl, (refl, tt))))
          e in
      subst FileRecords same (
        Scanned-FileRecords paths limit scanned.0 scanned.1 held.0
          (subst (λ c. AllComplete c.scans) (sym same) complete))

  abbrev hashes_of :
      {context : DatasetScanAuditContext} → FileRecords context → Experiment → Split → DatasetHashes
  hashes_of f e s = record { path = (sources e s).path; hashes = f.digests e s }

  Streamed-at :
      {context : DatasetScanAuditContext} (f : FileRecords context) (e : Experiment)
      → Streamed context e (hashes_of f e Split.train) (hashes_of f e Split.eval)
  Streamed-at f e = record {
    train_scan = f.found e Split.train;
    eval_scan = f.found e Split.eval;
    scans_train = f.scans e Split.train;
    scans_eval = f.scans e Split.eval;
    complete_train = f.whole e Split.train;
    complete_eval = f.whole e Split.eval;
    holds_train = f.holds e Split.train;
    holds_eval = f.holds e Split.eval;
    some_eval = f.positive e Split.eval;
  }

  opened-FileRecords :
      (manifest : Option Paths) (context : DatasetScanAuditContext)
      → stream_dataset_audit_context setting sources manifest ≡ some context
      → AllComplete context.scans
      → FileRecords context
  unfolding stream_dataset_audit_context
  opened-FileRecords manifest context h complete = go (share_head sources) h
    where
      go :
          (b : Bool)
          → (if b then (fixed_paths sources manifest >>= context_of setting sources) else none)
            ≡ some context
          → FileRecords context
      go true e =
          let (paths, _, h1) =
            >>=-eq-some (fixed_paths sources manifest) (context_of setting sources) e in
          built-FileRecords paths context h1 complete
      go false e = cc

-- The streamed findings and the findings in memory on the records of the same files.
pub record SameChecks (hash : EntriesHash) (setting : Setting) (sources : Sources)
    (context : DatasetScanAuditContext) : Type 0 where
  pub digests : Experiment → Split → List String
  pub read :
      (e : Experiment) (s : Split)
      → file_digests (job_of setting e s) (sources e s) ≡ some (digests e s)
  pub summaries : List OverlapSummary
  pub streamed : List Finding
  pub checks : check_streaming_dataset_context hash context ≡ some (summaries, streamed)
  pub agrees : Agrees streamed (
      memory_findings
        (record {
          path = (sources Experiment.baseline Split.train).path;
          hashes = digests Experiment.baseline Split.train;
        })
        (record {
          path = (sources Experiment.baseline Split.eval).path;
          hashes = digests Experiment.baseline Split.eval;
        })
        (record {
          path = (sources Experiment.candidate Split.train).path;
          hashes = digests Experiment.candidate Split.train;
        })
        (record {
          path = (sources Experiment.candidate Split.eval).path;
          hashes = digests Experiment.candidate Split.eval;
        }))

-- When the context over four files is built and all four scans are complete, every record of every
-- file has a hash, the streamed checks return, and whether they invalidate the comparison or call it
-- insufficient is what the checks in memory say of the same hashes, provided that SHA-256 tells the
-- ordered entries of the two evaluation splits apart.
pub stream_dataset_audit_context-SameChecks :
    (hash : EntriesHash) (setting : Setting) (sources : Sources) (manifest : Option Paths)
    (context : DatasetScanAuditContext)
    → stream_dataset_audit_context setting sources manifest ≡ some context
    → AllComplete context.scans
    → Separates hash
        (context.table Experiment.baseline Split.eval)
        (context.table Experiment.candidate Split.eval)
    → SameChecks hash setting sources context
stream_dataset_audit_context-SameChecks hash setting sources manifest context h complete separates =
    let f = opened-FileRecords setting sources manifest context h complete in
    let (found, returns, agrees) =
      Streamed-Agrees hash context _ _ _ _ (Streamed-at setting sources f Experiment.baseline)
        (Streamed-at setting sources f Experiment.candidate) separates in
    record {
      digests = f.digests;
      read = f.read;
      summaries = found.0;
      streamed = found.1;
      checks = returns;
      agrees = agrees;
    }
