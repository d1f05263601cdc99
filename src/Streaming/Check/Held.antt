-- ===== src/Streaming/Check/Held.antt =====
-- `stream_dataset_audit_context`: each scan keeps the rows of the scans before it.
use claim_ci.Prelude.{
  ◌<◌, ◌≡◌, refl, ◌∙◌, sym, subst, Bool, true, false, ◌&&◌, any, Option, some, List, [], ◌∷◌,
  String, length, arith,
}
use claim_ci.Prelude.Optional.{◌>>=◌, >>=-eq-some, some-injective}
use claim_ci.Streaming.Report.{is_complete}
use claim_ci.Streaming.Store.{Experiment, Split, eq_experiment, eq_split, Table, Spill}
use claim_ci.Streaming.Tables.{Holds}
use claim_ci.Streaming.Indexing.Digests.{Kept}
use claim_ci.Streaming.Datasets.{DatasetSplitScan, scan_dataset}
use claim_ci.Streaming.Datasets.Recorded.{Recorded, file_digests, scan_dataset-Recorded}
use claim_ci.Streaming.Context.{Sources, Setting, job_of, scan_all}

abbrev pub Role : Type 0
Role = Experiment × Split

abbrev pub same_role : Role → Role → Bool
same_role (e, s) (e', s') = eq_experiment e e' && eq_split s s'

abbrev pub IsFresh : List Role → Table → Type 0
IsFresh [] table = Unit
IsFresh (r ∷ keyed) table = (table r.0 r.1 ≡ []) × IsFresh keyed table

abbrev pub IsApart : List Role → Type 0
IsApart [] = Unit
IsApart (r ∷ keyed) = (any (same_role r) keyed ≡ false) × IsApart keyed

module _ (setting : Setting) (sources : Sources) where
  -- One scan, and the rows of its split in the table that all scans leave.
  pub record Held (r : Role) (table : Table) (x : DatasetSplitScan) : Type 0 where
    pub digests : List String
    pub holds : Holds (table r.0 r.1) digests
    pub role : (x.experiment ≡ r.0) × (x.split ≡ r.1)
    pub whole :
        is_complete x.completeness ≡ true
        → (file_digests (job_of setting r.0 r.1) (sources r.0 r.1) ≡ some digests)
          × (0 < length digests)

  abbrev pub Scanned : List Role → Table → List DatasetSplitScan → Type 0
  Scanned [] table [] = Unit
  Scanned [] table (x ∷ scans) = ⊥
  Scanned (r ∷ keyed) table [] = ⊥
  Scanned (r ∷ keyed) table (x ∷ scans) = Held r table x × Scanned keyed table scans

  abbrev pub KeptBut : List Role → Table → Table → Type 0
  KeptBut keyed earlier table =
      (r : Role) → any (same_role r) keyed ≡ false → table r.0 r.1 ≡ earlier r.0 r.1

  still-IsFresh :
      (r : Role) (keyed : List Role) (earlier table : Table)
      → any (same_role r) keyed ≡ false
      → Kept (job_of setting r.0 r.1) earlier table
      → IsFresh keyed earlier
      → IsFresh keyed table
  still-IsFresh r [] earlier table apart kept h = tt
  still-IsFresh r (q ∷ keyed) earlier table apart kept (h, k) =
      (kept q.0 q.1 (ground arith) ∙ h, still-IsFresh r keyed earlier table (ground arith) kept k)

  Recorded-Held :
      (r : Role) (earlier later table : Table) (x : DatasetSplitScan)
      → Recorded (job_of setting r.0 r.1) (sources r.0 r.1) earlier later x
      → table r.0 r.1 ≡ later r.0 r.1
      → Held r table x
  Recorded-Held r earlier later table x h e = record {
    digests = h.digests;
    holds = subst (λ rows. Holds rows h.digests) (sym e) h.holds;
    role = h.role;
    whole = λ f. let (read, _, _, positive) = h.complete f in (read, positive);
  }

  pub scan_all-Scanned :
      (keyed : List Role) (store : Spill) (scans : List DatasetSplitScan) (table : Table)
      → IsApart keyed
      → IsFresh keyed store.table
      → scan_all setting sources keyed store ≡ some (scans, table)
      → Scanned keyed table scans × KeptBut keyed store.table table
  unfolding scan_all
  scan_all-Scanned [] store scans table apart fresh h =
      subst (λ (o : List DatasetSplitScan × Table). Scanned [] o.1 o.0 × KeptBut [] store.table o.1)
        (some-injective h) (tt, λ r e. refl)
  scan_all-Scanned (r ∷ keyed) store scans table (apart, others) (fresh, rest) h =
      let scanned = scan_dataset (job_of setting r.0 r.1) (sources r.0 r.1) store in
      let further : DatasetSplitScan
          → List DatasetSplitScan × Table
          → Option (List DatasetSplitScan × Table) =
        λ first o. some (first ∷ o.0, o.1) in
      let (x, scans_first, h1) =
        >>=-eq-some scanned.0 (λ first. scan_all setting sources keyed scanned.1 >>= further first)
          h in
      let (o, scans_rest, h2) =
        >>=-eq-some (scan_all setting sources keyed scanned.1) (further x) h1 in
      let recorded =
        scan_dataset-Recorded (job_of setting r.0 r.1) (sources r.0 r.1) store x fresh
          scans_first in
      let (held, kept) =
        scan_all-Scanned keyed scanned.1 o.0 o.1 others
          (still-IsFresh r keyed store.table scanned.1.table apart recorded.kept rest) scans_rest in
      subst
        (λ (q : List DatasetSplitScan × Table).
          Scanned (r ∷ keyed) q.1 q.0 × KeptBut (r ∷ keyed) store.table q.1)
        (some-injective h2)
        (
          (Recorded-Held r store.table scanned.1.table o.1 x recorded (kept r apart), held),
          λ q e. kept q (ground arith) ∙ recorded.kept q.0 q.1 (ground arith),
        )
