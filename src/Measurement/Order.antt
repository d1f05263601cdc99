-- ===== src/Measurement/Order.antt =====
-- The order in which claimci/measurement.py is given the components of a protocol.
use mathlib.Core.List.{Permᴰ}
use claim_ci.Prelude.{
  ◌≡◌, refl, sym, ap, ◌∙◌, true, false, ◌||◌, arith, is_empty, length, none, List, [], ◌∷◌, String,
  Bool-cases, inl, inr,
}
use claim_ci.Measurement.{
  eq_kind, MeasurementProtocolComponent, insert_component, ordered_components, repeats_kind,
  SourceSnapshot, Digests, from_components,
}
use claim_ci.Measurement.Insertion.{among, among-insert, repeats_kind-insert, insert_comm}

among-ordered :
    (c : MeasurementProtocolComponent) (cs : List MeasurementProtocolComponent)
    → among c (ordered_components cs) ≡ among c cs
unfolding ordered_components
among-ordered c [] = refl
among-ordered c (d ∷ cs) =
    among-insert c d (ordered_components cs)
    ∙ ap (λ b. eq_kind c.kind d.kind || b) (among-ordered c cs)

repeats_kind-ordered :
    (cs : List MeasurementProtocolComponent)
    → repeats_kind (ordered_components cs) ≡ repeats_kind cs
unfolding ordered_components repeats_kind
repeats_kind-ordered [] = refl
repeats_kind-ordered (c ∷ cs) = repeats_kind-insert c (ordered_components cs) ∙ λ i.
    among-ordered c cs i || repeats_kind-ordered cs i

among-Perm :
    {xs ys : List MeasurementProtocolComponent} (c : MeasurementProtocolComponent) (p : Permᴰ xs ys)
    → among c xs ≡ among c ys
among-Perm c Permᴰ.nil = refl
among-Perm c (Permᴰ.cons e p) = λ i. eq_kind c.kind (e i).kind || among-Perm c p i
among-Perm c (Permᴰ.swap {a} {b} {l = l} e f) = ground (
  arith,
  ap (λ (x : MeasurementProtocolComponent). eq_kind c.kind x.kind) e,
  ap (λ (x : MeasurementProtocolComponent). eq_kind c.kind x.kind) f,
)
among-Perm c (Permᴰ.trans p q) = among-Perm c p ∙ among-Perm c q

length-Perm : {xs ys : List MeasurementProtocolComponent} (p : Permᴰ xs ys) → length xs ≡ length ys
length-Perm Permᴰ.nil = refl
length-Perm (Permᴰ.cons e p) = omega (arith, length-Perm p)
length-Perm (Permᴰ.swap e f) = refl
length-Perm (Permᴰ.trans p q) = length-Perm p ∙ length-Perm q

is_empty-Perm :
    {xs ys : List MeasurementProtocolComponent} (p : Permᴰ xs ys) → is_empty xs ≡ is_empty ys
is_empty-Perm Permᴰ.nil = refl
is_empty-Perm (Permᴰ.cons e p) = refl
is_empty-Perm (Permᴰ.swap e f) = refl
is_empty-Perm (Permᴰ.trans p q) = is_empty-Perm p ∙ is_empty-Perm q

repeats_kind-swap :
    (c d : MeasurementProtocolComponent) (cs : List MeasurementProtocolComponent)
    → repeats_kind (c ∷ d ∷ cs) ≡ repeats_kind (d ∷ c ∷ cs)
unfolding repeats_kind
repeats_kind-swap c d cs = ground arith

repeats_kind-Perm :
    {xs ys : List MeasurementProtocolComponent} (p : Permᴰ xs ys)
    → repeats_kind xs ≡ repeats_kind ys
unfolding repeats_kind
repeats_kind-Perm Permᴰ.nil = refl
repeats_kind-Perm (Permᴰ.cons {a} {b} {l₁} {l₂} e p) =
    (λ i. among (e i) l₁ || repeats_kind-Perm p i) ∙ ap (λ x. x || repeats_kind l₂) (among-Perm b p)
repeats_kind-Perm (Permᴰ.swap {a} {b} {l = l} e f) =
    repeats_kind-swap a b l ∙ λ i. repeats_kind (f i ∷ e i ∷ l)
repeats_kind-Perm (Permᴰ.trans p q) = repeats_kind-Perm p ∙ repeats_kind-Perm q

distinct_tail :
    (c : MeasurementProtocolComponent) (cs : List MeasurementProtocolComponent)
    → repeats_kind (c ∷ cs) ≡ false
    → (among c cs ≡ false) × (repeats_kind cs ≡ false)
unfolding repeats_kind
distinct_tail c cs h = ground arith

first_distinct :
    (c d : MeasurementProtocolComponent) (cs : List MeasurementProtocolComponent)
    → repeats_kind (c ∷ d ∷ cs) ≡ false
    → eq_kind c.kind d.kind ≡ false
unfolding repeats_kind
first_distinct c d cs h = ground arith

ordered-Perm :
    {xs ys : List MeasurementProtocolComponent} (p : Permᴰ xs ys)
    → repeats_kind xs ≡ false
    → ordered_components xs ≡ ordered_components ys
unfolding ordered_components
ordered-Perm Permᴰ.nil h = refl
ordered-Perm (Permᴰ.cons {a} {b} {l₁} {l₂} e p) h =
    λ i. insert_component (e i) (ordered-Perm p (distinct_tail a l₁ h).1 i)
ordered-Perm (Permᴰ.swap {a} {b} {l = l} e f) h =
    insert_comm a b (ordered_components l) (first_distinct a b l h) ∙ λ i.
    insert_component (f i) (insert_component (e i) (ordered_components l))
ordered-Perm (Permᴰ.trans p q) h = ordered-Perm p h ∙ ordered-Perm q (sym (repeats_kind-Perm p) ∙ h)

repeated :
    (d : Digests) (policy_id : String) (snapshot : SourceSnapshot)
    (cs : List MeasurementProtocolComponent)
    → repeats_kind cs ≡ true
    → from_components d policy_id snapshot cs ≡ none
unfolding from_components
repeated d policy_id snapshot cs h = ground (arith, repeats_kind-ordered cs)

-- The order in which the components of a protocol are given does not matter: two arrangements of
-- the same components are both refused or give the same identity, its digest and the order of its
-- components included.
pub from_components-Perm :
    {xs ys : List MeasurementProtocolComponent} (d : Digests) (policy_id : String)
    (snapshot : SourceSnapshot)
    → Permᴰ xs ys
    → from_components d policy_id snapshot xs ≡ from_components d policy_id snapshot ys
from_components-Perm {xs} {ys} d policy_id snapshot p = elim (Bool-cases (repeats_kind xs)) [
  | inl e ↦
      repeated d policy_id snapshot xs e
      ∙ sym (repeated d policy_id snapshot ys (sym (repeats_kind-Perm p) ∙ e))
  | inr e ↦ unfold from_components in rw (ordered-Perm p e, is_empty-Perm p, length-Perm p) refl
]
