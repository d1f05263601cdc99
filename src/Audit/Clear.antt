-- ===== src/Audit/Clear.antt =====
-- Parts of the findings of `audit_research` that gate nothing.
use claim_ci.Prelude.{
  ◌≡◌, refl, sym, ◌∙◌, subst, Bool, Bool-cases, inl, inr, true, false, ◌||◌, any-append, List, [],
  ◌∷◌, ◌++◌, String, arith,
}
use claim_ci.Models.{
  Result, ok, err, uncaught, is_uncaught, ◌>>=◌, >>=-eq-ok, ok-injective, or_raise, Finding,
  any_invalidates, any_insufficient,
}
use claim_ci.Models.Enums.{is_invalidates, is_insufficient}
use claim_ci.World.{World}
use claim_ci.Audit.Research.{Category, artifact_failure, failed, pair_findings}

-- No finding invalidates the claim or is insufficient.
abbrev pub IsClear : List Finding → Type 0
IsClear fs = (any_invalidates fs ≡ false) × (any_insufficient fs ≡ false)

pub or_none : {a b : Bool} → (a || b) ≡ false → (a ≡ false) × (b ≡ false)
or_none {a} {b} h = ground arith

pub IsClear-append : (fs gs : List Finding) → IsClear (fs ++ gs) → IsClear fs × IsClear gs
IsClear-append fs gs (h, k) =
    let (h1, h2) = or_none (sym (any-append (λ f. is_invalidates f.impact) fs gs) ∙ h) in
    let (k1, k2) = or_none (sym (any-append (λ f. is_insufficient f.impact) fs gs) ∙ k) in
    ((h1, k1), (h2, k2))

failure_insufficient :
    (w : World) (category : Category) (experiment path : String) {f : Finding}
    → artifact_failure w category experiment path ≡ ok f
    → is_insufficient f.impact ≡ true
unfolding artifact_failure
failure_insufficient w category experiment path h =
    let (present, _, h1) = >>=-eq-ok (or_raise (w.exists path) uncaught) _ h in
    subst (λ (f : Finding). is_insufficient f.impact ≡ true) (ok-injective h1) refl

-- A loader whose `ClaimCIError` is caught leaves an insufficient finding.
IsClear-failed {ℓ} :
    {A : Type ℓ} (w : World) (category : Category) (experiment path : String) (m : Result A)
    {fs : List Finding}
    → failed w category experiment path m ≡ ok fs
    → IsClear fs
    → (a : A) × (m ≡ ok a)
unfolding failed
IsClear-failed w category experiment path (ok a) made clear = (a, refl)
IsClear-failed w category experiment path (err e) {fs} made clear =
    elim (Bool-cases (is_uncaught e)) [
      | inl u ↦ let impossible : err e ≡ ok fs = rw u at made in cc
      | inr u ↦
          let caught : (artifact_failure w category experiment path >>= λ finding.
          ok (finding ∷ []))
              ≡ ok fs =
            rw u at made in
          let (f, f_eq, h) = >>=-eq-ok (artifact_failure w category experiment path) _ caught in
          let weak = failure_insufficient w category experiment path f_eq in
          let none_weak : any_insufficient (f ∷ []) ≡ false =
            subst (λ fs. any_insufficient fs ≡ false) (sym (ok-injective h)) clear.1 in
          absurd (ground (arith, weak, none_weak))
    ]

-- Where two loaders and what is done with their results leave nothing that gates, both returned.
pub IsClear-pair {ℓ} :
    {A : Type ℓ} (w : World) (category : Category) (d e p q : String) (m n : Result A)
    (rest : Result A → Result A → List Finding) {fs : List Finding}
    → pair_findings w category d e p q m n rest ≡ ok fs
    → IsClear fs
    → (a : A) × (b : A) × (m ≡ ok a) × (n ≡ ok b) × IsClear (rest (ok a) (ok b))
unfolding pair_findings
IsClear-pair w category d e p q m n rest made clear =
    let (first, first_eq, made1) = >>=-eq-ok (failed w category d p m) _ made in
    let (second, second_eq, made2) = >>=-eq-ok (failed w category e q n) _ made1 in
    let (h1, h2) =
      IsClear-append first (second ++ rest m n) (subst IsClear (sym (ok-injective made2)) clear) in
    let (h3, h4) = IsClear-append second (rest m n) h2 in
    let (a, a_eq) = IsClear-failed w category d p m first_eq h1 in
    let (b, b_eq) = IsClear-failed w category e q n second_eq h3 in
    (
      a,
      b,
      a_eq,
      b_eq,
      subst (λ m. IsClear (rest m (ok b))) a_eq (subst (λ n. IsClear (rest m n)) b_eq h4),
    )
