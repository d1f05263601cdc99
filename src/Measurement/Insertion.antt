-- ===== src/Measurement/Insertion.antt =====
-- `sorted(components, key=...)` of claimci/measurement.py, one component at a time.
use claim_ci.Prelude.{
  ℕ, ◌≡◌, refl, sym, ap, ◌∙◌, Bool, true, false, ◌||◌, leb, ltb, ◌==◌, arith, any, List, [], ◌∷◌,
  Bool-cases, inl, inr,
}
use claim_ci.Measurement.{
  rank, eq_kind, MeasurementProtocolComponent, insert_component, repeats_kind,
}

-- Some component of the list has the kind of `c`.
abbrev pub among : MeasurementProtocolComponent → List MeasurementProtocolComponent → Bool
among c cs = any (λ (d : MeasurementProtocolComponent). eq_kind c.kind d.kind) cs

front :
    (c d : MeasurementProtocolComponent) (cs : List MeasurementProtocolComponent)
    → leb (rank c.kind) (rank d.kind) ≡ true
    → insert_component c (d ∷ cs) ≡ c ∷ d ∷ cs
unfolding insert_component
front c d cs h = rw h refl

behind :
    (c d : MeasurementProtocolComponent) (cs : List MeasurementProtocolComponent)
    → leb (rank c.kind) (rank d.kind) ≡ false
    → insert_component c (d ∷ cs) ≡ d ∷ insert_component c cs
unfolding insert_component
behind c d cs h = rw h refl

left_comm : (a b c : Bool) → (a || (b || c)) ≡ (b || (a || c))
left_comm a b c = ground arith

pub among-insert :
    (c d : MeasurementProtocolComponent) (cs : List MeasurementProtocolComponent)
    → among c (insert_component d cs) ≡ (eq_kind c.kind d.kind || among c cs)
among-insert c d [] = unfold insert_component in refl
among-insert c d (e ∷ cs) = elim (Bool-cases (leb (rank d.kind) (rank e.kind))) [
  | inl h ↦ ap (among c) (front d e cs h)
  | inr h ↦
      ap (among c) (behind d e cs h)
      ∙ ap (λ b. eq_kind c.kind e.kind || b) (among-insert c d cs)
      ∙ left_comm (eq_kind c.kind e.kind) (eq_kind c.kind d.kind) (among c cs)
]

==-comm : (m n : ℕ) → (m == n) ≡ (n == m)
==-comm m n = ground arith

exchange : (a b c d e : Bool) → a ≡ b → ((a || c) || (d || e)) ≡ ((b || d) || (c || e))
exchange a b c d e h = ground arith

pub repeats_kind-insert :
    (c : MeasurementProtocolComponent) (cs : List MeasurementProtocolComponent)
    → repeats_kind (insert_component c cs) ≡ (among c cs || repeats_kind cs)
unfolding repeats_kind
repeats_kind-insert c [] = unfold insert_component in refl
repeats_kind-insert c (d ∷ cs) = elim (Bool-cases (leb (rank c.kind) (rank d.kind))) [
  | inl h ↦ ap repeats_kind (front c d cs h)
  | inr h ↦
      ap repeats_kind (behind c d cs h)
      ∙ (λ i. among-insert d c cs i || repeats_kind-insert c cs i)
      ∙ exchange (eq_kind d.kind c.kind) (eq_kind c.kind d.kind) (among d cs) (among c cs)
          (repeats_kind cs) (==-comm (rank d.kind) (rank c.kind))
]

insert_lower :
    (c d : MeasurementProtocolComponent) (cs : List MeasurementProtocolComponent)
    → ltb (rank c.kind) (rank d.kind) ≡ true
    → insert_component c (insert_component d cs) ≡ insert_component d (insert_component c cs)
insert_lower c d [] h =
    unfold insert_component in front c d [] (ground arith) ∙ sym (behind d c [] (ground arith))
insert_lower c d (e ∷ cs) h = elim (Bool-cases (leb (rank d.kind) (rank e.kind))) [
  | inl p ↦
      ap (insert_component c) (front d e cs p)
      ∙ front c d (e ∷ cs) (ground arith)
      ∙ ap (λ ds. c ∷ ds) (sym (front d e cs p))
      ∙ sym (behind d c (e ∷ cs) (ground arith))
      ∙ ap (insert_component d) (sym (front c e cs (ground arith)))
  | inr p ↦ elim (Bool-cases (leb (rank c.kind) (rank e.kind))) [
    | inl q ↦
        ap (insert_component c) (behind d e cs p)
        ∙ front c e (insert_component d cs) q
        ∙ ap (λ ds. c ∷ ds) (sym (behind d e cs p))
        ∙ sym (behind d c (e ∷ cs) (ground arith))
        ∙ ap (insert_component d) (sym (front c e cs q))
    | inr q ↦
        ap (insert_component c) (behind d e cs p)
        ∙ behind c e (insert_component d cs) q
        ∙ ap (λ ds. e ∷ ds) (insert_lower c d cs h)
        ∙ sym (behind d e (insert_component c cs) p)
        ∙ ap (insert_component d) (sym (behind c e cs q))
  ]
]

pub insert_comm :
    (c d : MeasurementProtocolComponent) (cs : List MeasurementProtocolComponent)
    → eq_kind c.kind d.kind ≡ false
    → insert_component c (insert_component d cs) ≡ insert_component d (insert_component c cs)
insert_comm c d cs h = elim (Bool-cases (ltb (rank c.kind) (rank d.kind))) [
  | inl below ↦ insert_lower c d cs below
  | inr above ↦ sym (insert_lower d c cs (ground arith))
]
