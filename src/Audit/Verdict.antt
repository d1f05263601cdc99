-- ===== src/Audit/Verdict.antt =====
-- `determine_verdict`: what decides the verdict.
use claim_ci.Prelude.{
  ◌≡◌, ◌↔◌, refl, Bool, true, false, ◌||◌, any-append, List, ◌++◌, if◌then◌else◌,
}
use claim_ci.Models.{Finding, any_invalidates, any_insufficient}
use claim_ci.Models.Enums.{Verdict, is_invalidates, is_insufficient}
use claim_ci.Audit.Research.{determine_verdict}

abbrev verdict_of : Bool → Bool → Verdict
verdict_of invalid weak =
    if invalid
    then Verdict.not_supported
    else if weak
    then Verdict.insufficient_evidence
    else Verdict.supported

verdict_of-cases :
    (invalid weak : Bool)
    → ((verdict_of invalid weak ≡ Verdict.not_supported) ↔ (invalid ≡ true))
      × ((verdict_of invalid weak ≡ Verdict.insufficient_evidence)
          ↔ ((invalid ≡ false) × (weak ≡ true)))
      × ((verdict_of invalid weak ≡ Verdict.supported) ↔ ((invalid ≡ false) × (weak ≡ false)))
verdict_of-cases true weak = ((λ h. refl, λ h. refl), (λ h. cc, λ h. cc), (λ h. cc, λ h. cc))
verdict_of-cases false true =
    ((λ h. cc, λ h. cc), (λ h. (refl, refl), λ h. refl), (λ h. cc, λ h. cc))
verdict_of-cases false false =
    ((λ h. cc, λ h. cc), (λ h. cc, λ h. cc), (λ h. (refl, refl), λ h. refl))

-- The verdict is not_supported exactly when a finding invalidates the claim; insufficient_evidence
-- exactly when none does and a finding is insufficient; supported exactly when there is neither.
pub determine_verdict-cases :
    (fs : List Finding)
    → ((determine_verdict fs ≡ Verdict.not_supported) ↔ (any_invalidates fs ≡ true))
      × ((determine_verdict fs ≡ Verdict.insufficient_evidence)
          ↔ ((any_invalidates fs ≡ false) × (any_insufficient fs ≡ true)))
      × ((determine_verdict fs ≡ Verdict.supported)
          ↔ ((any_invalidates fs ≡ false) × (any_insufficient fs ≡ false)))
unfolding determine_verdict
determine_verdict-cases fs = verdict_of-cases (any_invalidates fs) (any_insufficient fs)

-- The graver of two verdicts.
abbrev pub graver : Verdict → Verdict → Verdict
graver Verdict.not_supported v = Verdict.not_supported
graver Verdict.insufficient_evidence Verdict.not_supported = Verdict.not_supported
graver Verdict.insufficient_evidence _ = Verdict.insufficient_evidence
graver Verdict.supported v = v

verdict_of-or :
    (a b c d : Bool) → verdict_of (a || c) (b || d) ≡ graver (verdict_of a b) (verdict_of c d)
verdict_of-or true b c d = refl
verdict_of-or false true true d = refl
verdict_of-or false true false true = refl
verdict_of-or false true false false = refl
verdict_of-or false false true d = refl
verdict_of-or false false false true = refl
verdict_of-or false false false false = refl

-- The verdict on the findings of two checks together is the graver of their verdicts, so no check
-- can better the verdict of another.
pub determine_verdict-append :
    (fs gs : List Finding)
    → determine_verdict (fs ++ gs) ≡ graver (determine_verdict fs) (determine_verdict gs)
unfolding determine_verdict
determine_verdict-append fs gs =
    rw
      (
        any-append (λ f. is_invalidates f.impact) fs gs,
        any-append (λ f. is_insufficient f.impact) fs gs,
      )
      (verdict_of-or _ _ _ _)
