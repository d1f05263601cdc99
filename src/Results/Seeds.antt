-- ===== src/Results/Seeds.antt =====
-- `_seed_findings`: runs without a seed, repeated seeds, and a single run.
use claim_ci.Prelude.{
  ℕ, ◌+◌, ◌≡◌, refl, Bool, not, ◌==◌, ltb, keep, when, is_empty, length, Option, none, some, List,
  [], ◌∷◌, ◌++◌, String, if◌then◌else◌,
}
use claim_ci.Prelude.Int.{ℤ, pos, leb_ℤ, eq_ℤ}
use claim_ci.Models.{Finding, Datum}
use claim_ci.Models.Enums.{Severity, Impact}
use claim_ci.Results.Runs.{LoadedResults}

-- `enumerate(seeds, start=index)`
unfoldable pub missing_from : ℕ → List (Option ℤ) → List ℕ
missing_from index [] = []
missing_from index (none ∷ seeds) = index ∷ missing_from (index + 1) seeds
missing_from index (some s ∷ seeds) = missing_from (index + 1) seeds

unfoldable pub missing_indices : List (Option ℤ) → List ℕ
unfolding missing_from
missing_indices = missing_from 1

unfoldable pub present_seeds : List (Option ℤ) → List ℤ
present_seeds [] = []
present_seeds (none ∷ seeds) = present_seeds seeds
present_seeds (some s ∷ seeds) = s ∷ present_seeds seeds

unfoldable pub count_seed : ℤ → List ℤ → ℕ
count_seed s [] = 0
count_seed s (t ∷ seeds) = (if eq_ℤ t s then 1 else 0) + count_seed s seeds

-- The keys of `Counter(seeds)`: each seed once, in the order of its last occurrence here; they
-- are sorted below.
unfoldable pub distinct_seeds : List ℤ → List ℤ
unfolding count_seed
distinct_seeds [] = []
distinct_seeds (s ∷ seeds) =
    let rest = distinct_seeds seeds in if count_seed s seeds == 0 then s ∷ rest else rest

unfoldable pub insert : ℤ → List ℤ → List ℤ
insert s [] = s ∷ []
insert s (t ∷ seeds) = if leb_ℤ s t then s ∷ t ∷ seeds else t ∷ insert s seeds

unfoldable pub sort_seeds : List ℤ → List ℤ
unfolding insert
sort_seeds [] = []
sort_seeds (s ∷ seeds) = insert s (sort_seeds seeds)

abbrev pub is_repeated : List ℤ → ℤ → Bool
is_repeated seeds s = ltb 1 (count_seed s seeds)

unfoldable pub duplicate_seeds : List ℤ → List ℤ
unfolding distinct_seeds sort_seeds
duplicate_seeds seeds = sort_seeds (keep (is_repeated seeds) (distinct_seeds seeds))

abbrev pub seed_warning : String → String → String → Datum → Finding
seed_warning rule experiment key found = record {
  rule_id = rule;
  severity = Severity.warning;
  evidence = ("experiment", Datum.text experiment) ∷ (key, found) ∷ [];
  impact = Impact.insufficient;
}

unfoldable pub seed_findings : String → LoadedResults → List Finding
seed_findings experiment loaded =
    let missing = missing_indices loaded.seeds in
    let duplicates = duplicate_seeds (present_seeds loaded.seeds) in
    when (not (is_empty missing))
      (seed_warning "SEED.MISSING_METADATA" experiment "run_indices" (Datum.numbers missing) ∷ [])
    ++ (when (not (is_empty duplicates)) (
          seed_warning "SEED.DUPLICATE" experiment "duplicate_seeds" (Datum.integers duplicates)
          ∷ [])
        ++ when (length loaded.values == 1)
            (seed_warning "SEED.SINGLE_RUN" experiment "run_count" (Datum.count 1) ∷ []))

repeats : duplicate_seeds (pos 7 ∷ pos 3 ∷ pos 7 ∷ pos 1 ∷ pos 3 ∷ []) ≡ pos 3 ∷ pos 7 ∷ []
unfolding duplicate_seeds
repeats = refl
