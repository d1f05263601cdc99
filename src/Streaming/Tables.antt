-- ===== src/Streaming/Tables.antt =====
-- The rows of one split of the table, and the digests that were added to it.
use claim_ci.Prelude.{
  ℕ, ◌+◌, ◌<◌, ◌≡◌, refl, ap, ◌∙◌, sym, true, List, [], ◌∷◌, ◌++◌, map, String, str_eq, eq_iff,
  arith, if◌then◌else◌, Bool-cases, inl, inr,
}
use claim_ci.Counter.{
  Counter, counter, count_of, has_key, increase, keys, count, sorted, IsDistinct,
}
use claim_ci.Counter.Counts.{
  count_of-counter, count_of-increase, IsDistinct-counter, IsDistinct-increase,
}
use claim_ci.Counter.Equal.{IsPositive, IsPositive-counter, IsPositive-increase, count-has_key}
use claim_ci.Counter.Totals.{count_of-fresh}
use claim_ci.Counter.Ascending.{
  has, IsAscending, has-before, has-sorted, has-keys, sorted-IsAscending,
}
use claim_ci.Dataset.{hash_count_evidence, count_entry}
use claim_ci.Streaming.Store.{upsert}

-- What rows with these multiplicities add to a digest.
pub tally : String → List (String × ℕ) → ℕ
tally j [] = 0
tally j ((k, n) ∷ entries) = (if str_eq k j then n else 0) + tally j entries

count_of-upsert :
    (j : String) (rows : Counter) (entries : List (String × ℕ))
    → count_of j (upsert rows entries) ≡ tally j entries + count_of j rows
unfolding upsert tally
count_of-upsert j rows [] = omega arith
count_of-upsert j rows ((k, n) ∷ entries) =
    omega (arith, count_of-upsert j (increase k n rows) entries, count_of-increase j k n rows)

upsert-IsDistinct :
    (rows : Counter) (entries : List (String × ℕ))
    → IsDistinct rows
    → IsDistinct (upsert rows entries)
unfolding upsert
upsert-IsDistinct rows [] h = h
upsert-IsDistinct rows ((k, n) ∷ entries) h =
    upsert-IsDistinct (increase k n rows) entries (IsDistinct-increase k n rows h)

upsert-IsPositive :
    (rows : Counter) (entries : List (String × ℕ))
    → IsPositive rows
    → IsPositive entries
    → IsPositive (upsert rows entries)
unfolding upsert
upsert-IsPositive rows [] h p = h
upsert-IsPositive rows ((k, n) ∷ entries) h (q, p) =
    upsert-IsPositive (increase k n rows) entries (IsPositive-increase k n rows q h) p

tally-entry :
    (j : String) (c : Counter) (k : String) (ks : List String)
    → tally j (map (count_entry c) (k ∷ ks))
      ≡ (if str_eq k j then count_of k c else 0) + tally j (map (count_entry c) ks)
unfolding tally
tally-entry j c k ks = refl

-- Growing keys are counted once each.
tally-ascending :
    (j : String) (c : Counter) (ks : List String)
    → IsAscending ks
    → tally j (map (count_entry c) ks) ≡ (if has j ks then count_of j c else 0)
unfolding has
tally-ascending j c [] h = unfold tally in refl
tally-ascending j c (k ∷ ks) (b, h) =
    let rest = tally-ascending j c ks h in
    let apart = has-before k j ks b in
    elim (Bool-cases (str_eq k j)) [
      | inl e ↦
          let here : count_of k c ≡ count_of j c = ap (λ t. count_of t c) ((eq_iff k j).0 e) in
          rw (tally-entry, e) (ground (arith, rest, apart, here))
      | inr e ↦ rw (tally-entry, e) (ground (arith, rest))
    ]

-- A batch's rows count what its digests do.
pub tally-evidence :
    (j : String) (c : Counter) → IsDistinct c → tally j (hash_count_evidence c) ≡ count_of j c
unfolding hash_count_evidence
tally-evidence j c h =
    tally-ascending j c (sorted (keys c)) (sorted-IsAscending c h)
    ∙ present (has-sorted j (keys c) ∙ has-keys j c)
  where
    present :
        has j (sorted (keys c)) ≡ has_key j c
        → (if has j (sorted (keys c)) then count_of j c else 0) ≡ count_of j c
    present e = ground (arith, e, count_of-fresh j c)

IsPositive-entries :
    (c : Counter) (ks : List String)
    → ((j : String) → has j ks ≡ true → 0 < count_of j c)
    → IsPositive (map (count_entry c) ks)
IsPositive-entries c [] h = tt
IsPositive-entries c (k ∷ ks) h = (
  h k (unfold has in ground (arith, eq_iff k k)),
  IsPositive-entries c ks λ j e. h j (unfold has in ground arith),
)

-- The rows count every digest as often as it was added, and hold each digest once.
abbrev pub Holds : Counter → List String → Type 0
Holds rows digests =
    IsDistinct rows × IsPositive rows × ((j : String) → count_of j rows ≡ count j digests)

evidence-IsPositive : (c : Counter) → IsPositive c → IsPositive (hash_count_evidence c)
unfolding hash_count_evidence
evidence-IsPositive c p =
    IsPositive-entries c _
      λ j e. count-has_key j c p (sym (has-sorted j (keys c) ∙ has-keys j c) ∙ e)

count-append : (j : String) (xs ys : List String) → count j (xs ++ ys) ≡ count j xs + count j ys
unfolding count
count-append j [] ys = omega arith
count-append j (x ∷ xs) ys = omega (arith, count-append j xs ys)

pub nil-Holds : Holds [] []
nil-Holds = (tt, tt, λ j. unfold count_of count in refl)

-- Writing a batch adds its digests.
pub upsert-Holds :
    (rows : Counter) (digests batch : List String)
    → Holds rows digests
    → Holds (upsert rows (hash_count_evidence (counter batch))) (digests ++ batch)
upsert-Holds rows digests batch (distinct, positive, counts) = (
  upsert-IsDistinct rows _ distinct,
  upsert-IsPositive rows _ positive
      (evidence-IsPositive (counter batch) (IsPositive-counter batch)),
  λ j. omega (
    arith,
    count_of-upsert j rows (hash_count_evidence (counter batch)),
    tally-evidence j (counter batch) (IsDistinct-counter batch),
    count_of-counter j batch,
    counts j,
    count-append j digests batch,
  ),
)

-- A counter of a list holds it.
pub counter-Holds : (digests : List String) → Holds (counter digests) digests
counter-Holds digests =
    (IsDistinct-counter digests, IsPositive-counter digests, λ j. count_of-counter j digests)
