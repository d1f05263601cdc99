-- ===== src/Streaming/Indexing/Looping.antt =====
-- The loop over the lines of a file, with the digests that it has gone over.
use claim_ci.Prelude.{
  ℕ, ◌+◌, ◌≡◌, refl, ap, ◌∙◌, sym, subst, Bool, true, false, ltb, leb, if◌then◌else◌, Option, none,
  some, List, [], ◌∷◌, ◌++◌, String, length, length-append, arith, Bool-cases, inl, inr,
}
use mathlib.Core.List.{append_assoc, append-nil}
use claim_ci.Prelude.Optional.{◌>>=◌, some-injective}
use claim_ci.Streaming.Lines.{Step, takes, notes, yields, halts}
use claim_ci.Streaming.Records.{Parsed, stopped, parsed, parse_dataset_value, is_blank_bytes}
use claim_ci.Streaming.Scan.{ArtifactScan, is_over}
use claim_ci.Streaming.Store.{Table, Spill}
use claim_ci.Streaming.Indexing.{
  Job, Progress, Outcome, continues, stops, full, raises, ◌then◌, flushed, flush, batch_records,
  with_digest, add_digest, index_record, index_line, index_lines, noted, taking,
}
use claim_ci.Streaming.Indexing.Digests.{
  record_digest, digests_of, first_digest, readable_digests, Begins, Begins-part, Indexes, Holding,
}
use claim_ci.Streaming.Indexing.Progressing.{Added, add_batch-Added}

module _ (job : Job) (earlier : Table) (readable : List String) where
  pub Indexes-Holding :
      {ds : List String} {p : Progress}
      → Begins ds readable
      → Indexes job earlier ds p
      → Holding job earlier readable p
  Indexes-Holding {ds} {p} b i = record {
    stored = i.stored;
    holds = i.holds;
    enough = omega (arith, i.written);
    bounded = omega (arith, i.counted, ap length i.parts, length-append i.stored p.pending);
    early = Begins-part i.stored p.pending readable (subst (λ t. Begins t readable) i.parts b);
    kept = i.kept;
  }

  rescan :
      {ds : List String} {p : Progress} (scan : ArtifactScan)
      → Indexes job earlier ds p
      → Indexes job earlier ds (record p { scan = scan })
  rescan scan i = record {
    stored = i.stored;
    holds = i.holds;
    parts = i.parts;
    counted = i.counted;
    written = i.written;
    kept = i.kept;
  }

  -- A flush leaves nothing pending, or finds the store full.
  abbrev pub Flushed : List String → Outcome → Type 0
  Flushed ds (continues q) = Indexes job earlier ds q × (q.pending ≡ [])
  Flushed ds (full q) = Holding job earlier readable q
  Flushed ds (stops reason q) = ⊥
  Flushed ds (raises q) = ⊥

  flushed-Flushed :
      {ds : List String} (p : Progress) (r : Option ℕ × Spill)
      → Begins ds readable
      → (i : Indexes job earlier ds p) → Added job earlier i.stored p.pending r
      → Flushed ds (flushed p r)
  unfolding flushed
  flushed-Flushed p (some n, store) b i (same, holds, kept) = (
    record {
      stored = i.stored ++ p.pending;
      holds = holds;
      parts = i.parts ∙ sym (append-nil _);
      counted = i.counted;
      written = omega (arith, same, i.written, length-append i.stored p.pending);
      kept = kept;
    },
    refl,
  )
  flushed-Flushed p (none, store) b i (later, holds, low, high, (rest, e), kept) = record {
    stored = later;
    holds = holds;
    enough = omega (arith, i.written, low);
    bounded = omega (arith, high, i.counted, ap length i.parts, length-append i.stored p.pending);
    early = Begins-part later rest readable (subst (λ t. Begins t readable) (i.parts ∙ sym e) b);
    kept = kept;
  }

  pub flush-Flushed :
      {ds : List String} (p : Progress)
      → Begins ds readable
      → Indexes job earlier ds p
      → Flushed ds (flush job p)
  unfolding flush
  flush-Flushed p b i =
      flushed-Flushed p _ b i
        (add_batch-Added job earlier i.stored p.pending p.store i.holds i.kept)

  -- What a part of the loop has gone over: all that it should, where it goes on.
  abbrev pub After : List String → Option (List String) → Outcome → Type 0
  After ds next (continues q) =
      (es : List String) × (next ≡ some es) × Indexes job earlier (ds ++ es) q
  After ds next (stops reason q) =
      (es : List String) × Begins es readable × Indexes job earlier es q
  After ds next (full q) = Holding job earlier readable q
  After ds next (raises q) = Holding job earlier readable q

  Flushed-After :
      (ds es : List String) (o : Outcome) (next : Option (List String))
      → next ≡ some es
      → Flushed (ds ++ es) o
      → After ds next o
  Flushed-After ds es (continues q) next e (i, done) = (es, e, i)
  Flushed-After ds es (full q) next e h = h
  Flushed-After ds es (stops reason q) next e h = absurd h
  Flushed-After ds es (raises q) next e h = absurd h

  appended :
      (ds : List String) (digest : String) (p : Progress)
      → Indexes job earlier ds p
      → Indexes job earlier (ds ++ digest ∷ []) (with_digest digest p)
  appended ds digest p i = record {
    stored = i.stored;
    holds = i.holds;
    parts = ap (λ t. t ++ digest ∷ []) i.parts ∙ append_assoc i.stored p.pending (digest ∷ []);
    counted = omega (arith, i.counted, length-append ds (digest ∷ []));
    written = i.written;
    kept = i.kept;
  }

  add_digest-After :
      (ds : List String) (digest : String) (p : Progress)
      → Begins (ds ++ digest ∷ []) readable
      → Indexes job earlier ds p
      → After ds (some (digest ∷ [])) (add_digest job digest p)
  unfolding add_digest
  add_digest-After ds digest p b i =
      elim (Bool-cases (leb batch_records (length (p.pending ++ digest ∷ [])))) [
        | inl g ↦ rw g (
            Flushed-After ds (digest ∷ []) (flush job (with_digest digest p)) _ refl
              (flush-Flushed (with_digest digest p) b (appended ds digest p i)))
        | inr g ↦ rw g (digest ∷ [], refl, appended ds digest p i)
      ]

  -- The digest of one record as a list.
  abbrev single : Option String → Option (List String)
  single o = o >>= λ digest. some (digest ∷ [])

  hashed-After :
      (ds : List String) (p : Progress) (o : Option String)
      → Begins (ds ++ first_digest o []) readable
      → Indexes job earlier ds p
      → After ds (single o) (elim o [ none ↦ raises p | some digest ↦ add_digest job digest p ])
  hashed-After ds p none b i = Indexes-Holding (Begins-part ds [] readable b) i
  hashed-After ds p (some digest) b i = add_digest-After ds digest p b i

  index_record-After :
      (ds : List String) (raw : List ℕ) (p : Progress)
      → Begins (ds ++ first_digest (record_digest job raw) []) readable
      → Indexes job earlier ds p
      → After ds (single (record_digest job raw)) (index_record job raw p)
  unfolding index_record record_digest
  index_record-After ds raw p b i = go (parse_dataset_value job.world job.codec job.limits raw) b
    where
      go :
          (o : Parsed)
          → Begins
              (ds
                ++ first_digest
                    (elim o [ stopped reason ↦ none | parsed v ↦ job.world.hash_sample v ])
                    [])
              readable
          → After ds
              (single (elim o [ stopped reason ↦ none | parsed v ↦ job.world.hash_sample v ]))
              (elim o [
                | stopped reason ↦ stops reason p
                | parsed v ↦ elim (job.world.hash_sample v) [
                  | none ↦ raises p
                  | some digest ↦ add_digest job digest p
                ]
              ])
      go (stopped reason) b = (ds, Begins-part ds [] readable b, i)
      go (parsed v) b = hashed-After ds p (job.world.hash_sample v) b i

  abbrev line_digests : List ℕ → Option (List String)
  line_digests raw = if is_blank_bytes raw then some [] else single (record_digest job raw)

  -- The digest that a line adds, if it can be read.
  abbrev line_readable : List ℕ → List String
  line_readable raw = if is_blank_bytes raw then [] else first_digest (record_digest job raw) []

  index_line-After :
      (ds : List String) (raw : List ℕ) (n : ℕ) (p : Progress)
      → Begins (ds ++ line_readable raw) readable
      → Indexes job earlier ds p
      → After ds (line_digests raw) (index_line job raw n p)
  unfolding index_line
  index_line-After ds raw n p begins i =
      let early = Begins-part ds (line_readable raw) readable begins in
      elim (Bool-cases (ltb job.limits.max_semantic_bytes (p.scan.semantic_bytes + n))) [
        | inl e ↦ rw e (ds, early, i)
        | inr e ↦ elim (Bool-cases (is_blank_bytes raw)) [
          | inl b ↦ rw (e, b) ([], refl, rw append-nil (rescan _ i))
          | inr b ↦ elim (Bool-cases (leb job.limits.max_semantic_records p.records)) [
            | inl m ↦ rw (e, b, m) (ds, early, i)
            | inr m ↦
                rw (e, b, m)
                  (index_record-After ds raw (noted n (length raw) p) (rw b at begins) (rescan _ i))
          ]
        ]
      ]

  abbrev chain : Option (List String) → Option (List String) → Option (List String)
  chain first second = first >>= λ xs. second >>= λ ys. some (xs ++ ys)

  then-After :
      (ds : List String) (first second : Option (List String)) (o : Outcome)
      (next : Progress → Outcome)
      → After ds first o
      → ((es : List String) (q : Progress)
          → first ≡ some es
          → Indexes job earlier (ds ++ es) q
          → After (ds ++ es) second (next q))
      → After ds (chain first second) (o then next)
  then-After ds first second (continues q) next (es, e, i) h = joined (next q) (h es q e i)
    where
      joined : (o : Outcome) → After (ds ++ es) second o → After ds (chain first second) o
      joined (continues r) (fs, f, j) = (es ++ fs, rw (e, f) refl, rw (← append_assoc ds es fs) j)
      joined (stops reason r) k = k
      joined (full r) k = k
      joined (raises r) k = k
  then-After ds first second (stops reason q) next a h = a
  then-After ds first second (full q) next a h = a
  then-After ds first second (raises q) next a h = a

  chain-single :
      (blank : Bool) (o : Option String) (rest : Option (List String))
      → chain (if blank then some [] else single o) rest
        ≡ (if blank then rest else o >>= λ digest. rest >>= λ digests. some (digest ∷ digests))
  chain-single true o none = refl
  chain-single true o (some ds) = refl
  chain-single false none rest = refl
  chain-single false (some d) rest = refl

  chain-line :
      (raw : List ℕ) (n : ℕ) (steps : List Step)
      → chain (line_digests raw) (digests_of job steps) ≡ digests_of job (yields raw n ∷ steps)
  unfolding digests_of
  chain-line raw n steps =
      chain-single (is_blank_bytes raw) (record_digest job raw) (digests_of job steps)

  upto_first :
      (ds rest : List String) (blank : Bool) (o : Option String)
      → Begins (ds ++ (if blank then rest else first_digest o rest)) readable
      → Begins (ds ++ (if blank then [] else first_digest o [])) readable
        × ((es : List String)
            → (if blank then some [] else single o) ≡ some es
            → Begins ((ds ++ es) ++ rest) readable)
  upto_first ds rest true o b = (
    rw append-nil (Begins-part ds rest readable b),
    λ es e. subst (λ t. Begins ((ds ++ t) ++ rest) readable) (some-injective e) (rw append-nil b),
  )
  upto_first ds rest false none b = (b, λ es e. cc)
  upto_first ds rest false (some d) b =
      let split : Begins ((ds ++ d ∷ []) ++ rest) readable =
        subst (λ t. Begins t readable) (sym (append_assoc ds (d ∷ []) rest)) b in
      (
        Begins-part (ds ++ d ∷ []) rest readable split,
        λ es e. subst (λ t. Begins ((ds ++ t) ++ rest) readable) (some-injective e) split,
      )

  upto_line :
      (ds : List String) (raw : List ℕ) (steps : List Step)
      → Begins
          (ds
            ++ (if is_blank_bytes raw
                then readable_digests job steps
                else first_digest (record_digest job raw) (readable_digests job steps)))
          readable
      → Begins (ds ++ line_readable raw) readable
        × ((es : List String)
            → line_digests raw ≡ some es
            → Begins ((ds ++ es) ++ readable_digests job steps) readable)
  upto_line ds raw steps =
      upto_first ds (readable_digests job steps) (is_blank_bytes raw) (record_digest job raw)

  pub index_lines-After :
      (ds : List String) (steps : List Step) (p : Progress)
      → Begins (ds ++ readable_digests job steps) readable
      → Indexes job earlier ds p
      → After ds (digests_of job steps) (index_lines job steps p)
  unfolding index_lines digests_of readable_digests
  index_lines-After ds [] p b i = ([], refl, rw append-nil i)
  index_lines-After ds (takes block unread ∷ steps) p b i =
      let later = index_lines-After ds steps (taking block unread p) b (rescan _ i) in
      elim (Bool-cases (is_over job.limits block (taking block unread p).scan)) [
        | inl e ↦ rw e (Indexes-Holding (Begins-part ds _ readable b) (rescan _ i))
        | inr e ↦ rw e later
      ]
  index_lines-After ds (notes n ∷ steps) p b i =
      index_lines-After ds steps (noted 0 n p) b (rescan _ i)
  index_lines-After ds (yields raw n ∷ steps) p b i =
      let (line, rest) = upto_line ds raw steps b in
      subst (λ o. After ds o (index_line job raw n p then λ q. index_lines job steps q))
        (chain-line raw n steps)
        (then-After ds _ _ (index_line job raw n p) (λ q. index_lines job steps q)
          (index_line-After ds raw n p line i)
          (λ es q e j. index_lines-After (ds ++ es) steps q (rest es e) j))
  index_lines-After ds (halts ∷ steps) p b i = (ds, Begins-part ds [] readable b, i)
