-- ===== src/Results/Independence.antt =====
-- `_seed_findings`: when the runs of one experiment count as independent.
use claim_ci.Prelude.{
  ℕ, ◌+◌, ◌<◌, ◌≤◌, ◌≡◌, ◌≢◌, ◌∙◌, ap, ◌↔◌, refl, sym, subst, Bool, true, false, not, ◌&&◌, ◌||◌,
  ◌==◌, ltb, any, keep, length, is_empty, is_empty-append, is_empty-when, any-append, any-when,
  bool_laws, Option, none, some, is_some, all, List, [], ◌∷◌, String, Bool-cases, inl, inr, arith,
  and_split, not-not,
}
use claim_ci.Prelude.Int.{ℤ, eq_ℤ, eq_ℤ→eq}
use claim_ci.Models.{any_insufficient, any_invalidates}
use claim_ci.Results.{
  LoadedResults, missing_indices, present_seeds, count_seed, distinct_seeds, sort_seeds,
  duplicate_seeds, seed_findings,
}
use claim_ci.Results.Seeds.{missing_from, is_repeated, insert}

missing_from-is_empty :
    (i : ℕ) (seeds : List (Option ℤ)) → is_empty (missing_from i seeds) ≡ all is_some seeds
unfolding missing_from
missing_from-is_empty i [] = refl
missing_from-is_empty i (none ∷ seeds) = refl
missing_from-is_empty i (some s ∷ seeds) = missing_from-is_empty (i + 1) seeds

insert-is_empty : (s : ℤ) (seeds : List ℤ) → is_empty (insert s seeds) ≡ false
unfolding insert
insert-is_empty s [] = refl
insert-is_empty s (t ∷ seeds) = ground arith

sort_seeds-is_empty : (seeds : List ℤ) → is_empty (sort_seeds seeds) ≡ is_empty seeds
unfolding sort_seeds
sort_seeds-is_empty [] = refl
sort_seeds-is_empty (s ∷ seeds) = insert-is_empty s (sort_seeds seeds)

keep-is_empty : (p : ℤ → Bool) (xs : List ℤ) → is_empty (keep p xs) ≡ not (any p xs)
keep-is_empty p [] = refl
keep-is_empty p (x ∷ xs) = ground (arith, keep-is_empty p xs)

or_none : (a b : Bool) → (a || b) ≡ false → (a ≡ false) × (b ≡ false)
or_none a b h = ground arith

-- A test that fails on every distinct seed fails on every seed that occurs.
distinct-any :
    (p : ℤ → Bool) (xs : List ℤ) (s : ℤ)
    → any p (distinct_seeds xs) ≡ false
    → 0 < count_seed s xs
    → p s ≡ false
unfolding distinct_seeds count_seed
distinct-any p [] s h k = absurd (omega arith)
distinct-any p (t ∷ xs) s h k = elim (Bool-cases (eq_ℤ t s)) [
  | inl e ↦ elim (Bool-cases (count_seed t xs == 0)) [
    | inl z ↦ subst (λ u. p u ≡ false) (eq_ℤ→eq t s e) (or_none _ _ (rw z at h)).0
    | inr z ↦
        distinct-any p xs s (rw z at h)
          (subst (λ u. 0 < count_seed u xs) (eq_ℤ→eq t s e) (ground (arith, z)))
  ]
  | inr e ↦ elim (Bool-cases (count_seed t xs == 0)) [
    | inl z ↦ distinct-any p xs s (or_none _ _ (rw z at h)).1 (ground (arith, e))
    | inr z ↦ distinct-any p xs s (rw z at h) (ground (arith, e))
  ]
]

any-never : (p : ℤ → Bool) (xs : List ℤ) → ((s : ℤ) → p s ≡ false) → any p xs ≡ false
any-never p [] h = refl
any-never p (x ∷ xs) h = rw (h x) (any-never p xs h)

duplicate_seeds-is_empty :
    (xs : List ℤ) → (is_empty (duplicate_seeds xs) ≡ true) ↔ ((s : ℤ) → count_seed s xs ≤ 1)
unfolding duplicate_seeds
duplicate_seeds-is_empty xs =
    let empty : is_empty (duplicate_seeds xs) ≡ not (any (is_repeated xs) (distinct_seeds xs)) =
      unfold duplicate_seeds in
      sort_seeds-is_empty (keep (is_repeated xs) (distinct_seeds xs))
      ∙ keep-is_empty (is_repeated xs) (distinct_seeds xs) in
    (
      λ h s. elim (Bool-cases (ltb 0 (count_seed s xs))) [
        | inl e ↦
            let once =
              distinct-any (is_repeated xs) xs s (ground (arith, h, empty)) (ground (arith, e)) in
            ground (arith, once)
        | inr e ↦ ground (arith, e)
      ],
      λ h.
          empty
          ∙ ap not (any-never (is_repeated xs) (distinct_seeds xs) (λ s. ground (arith, h s))),
    )

-- The runs of one experiment: each has a seed, no seed occurs twice, and there is not just one.
pub record IsSeeded (loaded : LoadedResults) : Type 0 where
  pub present : all is_some loaded.seeds ≡ true
  pub distinct : (s : ℤ) → count_seed s (present_seeds loaded.seeds) ≤ 1
  pub several : length loaded.values ≢ 1

seeded :
    (experiment : String) (loaded : LoadedResults)
    → is_empty (seed_findings experiment loaded) ≡ (
        is_empty (missing_indices loaded.seeds)
        && (is_empty (duplicate_seeds (present_seeds loaded.seeds))
            && not (length loaded.values == 1)))
unfolding seed_findings
seeded experiment loaded = simp (is_empty-append, is_empty-when, not-not)

missing_indices-is_empty :
    (seeds : List (Option ℤ)) → is_empty (missing_indices seeds) ≡ all is_some seeds
unfolding missing_indices
missing_indices-is_empty seeds = missing_from-is_empty 1 seeds

-- Every seed finding makes the evidence insufficient, and none of them invalidates the claim.
pub seed_findings-gates :
    (experiment : String) (loaded : LoadedResults)
    → (any_insufficient (seed_findings experiment loaded)
        ≡ not (is_empty (seed_findings experiment loaded)))
      × (any_invalidates (seed_findings experiment loaded) ≡ false)
unfolding seed_findings
seed_findings-gates experiment loaded = (
  simp (any-append, any-when, is_empty-append, is_empty-when, not-not, bool_laws) (ground arith),
  simp (any-append, any-when, bool_laws),
)

-- `_seed_findings` is silent on an experiment exactly when each of its runs has a seed, no seed
-- occurs twice, and there is not just one run.
pub seed_findings-IsSeeded :
    (experiment : String) (loaded : LoadedResults)
    → (is_empty (seed_findings experiment loaded) ≡ true) ↔ IsSeeded loaded
seed_findings-IsSeeded experiment loaded =
    let (there, back) = duplicate_seeds-is_empty (present_seeds loaded.seeds) in
    (
      λ h.
          let (missing, rest) = and_split (sym (seeded experiment loaded) ∙ h) in
          let (repeated, single) = and_split rest in
          record {
            present = sym (missing_indices-is_empty loaded.seeds) ∙ missing;
            distinct = there repeated;
            several = ground (arith, single);
          },
      λ h.
          seeded experiment loaded
          ∙ rw (missing_indices-is_empty, h.present, back h.distinct) (ground (arith, h.several)),
    )
