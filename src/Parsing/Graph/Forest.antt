-- ===== src/Parsing/Graph/Forest.antt =====
-- `_validate_yaml_graph`: the list of containers that it completes.
use claim_ci.Prelude.{
  ℕ, zero, suc, ◌+◌, ◌≡◌, subst, sym, true, false, ◌==◌, List, [], ◌∷◌, length, ◌⊎◌, arith, or_true,
  Bool-cases, inl, inr, ==_iff,
}
use claim_ci.Models.{ok, >>=-eq-ok}
use claim_ci.Parsing.Graph.{
  Node, leaf, container, Children, mem, Visit, visit_all, visit, complete, validate_yaml_graph,
  all_levels,
}

-- Every container among the nodes is listed.
abbrev pub AllIn : List Node → List ℕ → Type 0
AllIn [] done = Unit
AllIn (leaf ∷ ns) done = AllIn ns done
AllIn (container i ∷ ns) done = (mem i done ≡ true) × AllIn ns done

-- The container is among the nodes.
abbrev pub Holds : ℕ → List Node → Type 0
Holds i [] = ⊥
Holds i (leaf ∷ ns) = Holds i ns
Holds i (container j ∷ ns) = (i ≡ j) ⊎ Holds i ns

-- The containers among the nodes.
abbrev pub references : List Node → ℕ
references [] = 0
references (leaf ∷ ns) = references ns
references (container i ∷ ns) = suc (references ns)

-- How many times the listed containers hold a container.
abbrev pub edges : Children → List ℕ → ℕ
edges children [] = 0
edges children (i ∷ done) = references (children i) + edges children done

-- No identity twice, and every container behind all that it holds.
abbrev pub IsOrdered : Children → List ℕ → Type 0
IsOrdered children [] = Unit
IsOrdered children (i ∷ done) =
    (mem i done ≡ false) × AllIn (children i) done × IsOrdered children done

-- What a visit of nodes adds to the list.
pub record Grows (children : Children) (ns : List Node) (done done' : List ℕ) : Type 0 where
  pub ordered : IsOrdered children done'
  pub kept : (i : ℕ) → mem i done ≡ true → mem i done' ≡ true
  pub reached : AllIn ns done'
  pub counted :
      length done' + edges children done ≡ length done + edges children done' + references ns

AllIn-kept :
    (ns : List Node) (done done' : List ℕ)
    → ((i : ℕ) → mem i done ≡ true → mem i done' ≡ true)
    → AllIn ns done
    → AllIn ns done'
AllIn-kept [] done done' keep h = tt
AllIn-kept (leaf ∷ ns) done done' keep h = AllIn-kept ns done done' keep h
AllIn-kept (container i ∷ ns) done done' keep h = (keep i h.0, AllIn-kept ns done done' keep h.1)

-- A visit that grows the list for one node grows it for all.
abbrev VisitGrows : Children → Visit → Type 0
VisitGrows children v =
    (n : Node) (done done' : List ℕ)
    → IsOrdered children done
    → v n done ≡ ok done'
    → Grows children (n ∷ []) done done'

Grows-cons :
    (children : Children) (n : Node) (ns : List Node) (done mid done' : List ℕ)
    → Grows children (n ∷ []) done mid
    → Grows children ns mid done'
    → Grows children (n ∷ ns) done done'
Grows-cons children leaf ns done mid done' g h = record {
  ordered = h.ordered;
  kept = λ i m. h.kept i (g.kept i m);
  reached = h.reached;
  counted = omega (arith, g.counted, h.counted);
}
Grows-cons children (container i) ns done mid done' g h = record {
  ordered = h.ordered;
  kept = λ j m. h.kept j (g.kept j m);
  reached = (h.kept i g.reached.0, h.reached);
  counted = omega (arith, g.counted, h.counted);
}

Grows-none :
    (children : Children) (done : List ℕ) → IsOrdered children done → Grows children [] done done
Grows-none children done o = record {
  ordered = o;
  kept = λ i m. m;
  reached = tt;
  counted = omega arith;
}

ok-injective : {a b : List ℕ} → ok a ≡ ok b → a ≡ b
ok-injective h = cc

visit_all-Grows :
    (children : Children) (v : Visit) (ns : List Node) (done done' : List ℕ)
    → VisitGrows children v
    → IsOrdered children done
    → visit_all v ns done ≡ ok done'
    → Grows children ns done done'
unfolding visit_all
visit_all-Grows children v [] done done' grows o h =
    subst (Grows children [] done) (ok-injective h) (Grows-none children done o)
visit_all-Grows children v (n ∷ ns) done done' grows o h =
    let (mid, first, rest) = >>=-eq-ok (v n done) (visit_all v ns) h in
    let g = grows n done mid o first in
    Grows-cons children n ns done mid done' g
      (visit_all-Grows children v ns mid done' grows g.ordered rest)

leaf-Grows :
    (children : Children) (done : List ℕ)
    → IsOrdered children done
    → Grows children (leaf ∷ []) done done
leaf-Grows children done o = record {
  ordered = o;
  kept = λ i m. m;
  reached = tt;
  counted = omega arith;
}

mem_self : (i : ℕ) (xs : List ℕ) → mem i (i ∷ xs) ≡ true
mem_self i xs = ground arith

-- The container itself is added last.
Grows-complete :
    (children : Children) (i : ℕ) (done mid : List ℕ)
    → mem i mid ≡ false
    → Grows children (children i) done mid
    → Grows children (container i ∷ []) done (i ∷ mid)
Grows-complete children i done mid new g = record {
  ordered = (new, g.reached, g.ordered);
  kept = λ j m. rw (g.kept j m) (or_true (j == i));
  reached = (ground arith, tt);
  counted = omega (arith, g.counted);
}

-- What an accepted visit of a container did.
record Visited (levels : ℕ) (children : Children) (active : List ℕ) (i : ℕ) (done done' : List ℕ)
    : Type 0 where
  idle : mem i active ≡ false
  new : mem i done ≡ false
  mid : List ℕ
  below : visit_all (visit levels children (i ∷ active)) (children i) done ≡ ok mid
  last : i ∷ mid ≡ done'

visit-Visited :
    (levels : ℕ) (children : Children) (active : List ℕ) (i : ℕ) (done done' : List ℕ)
    → visit (suc levels) children active (container i) done ≡ ok done'
    → Visited levels children active i done done'
unfolding visit
visit-Visited levels children active i done done' h = elim (Bool-cases (mem i active)) [
  | inl a ↦ cc (rw a at h)
  | inr a ↦ elim (Bool-cases (mem i done)) [
    | inl m ↦ cc (rw (a, m) at h)
    | inr m ↦
        let (mid, below, last) =
          >>=-eq-ok (visit_all (visit levels children (i ∷ active)) (children i) done) (complete i)
            (rw (a, m) at h) in
        record { idle = a; new = m; mid = mid; below = below; last = ok-injective last }
  ]
]

-- A visit leaves out of the list what was active and not listed.
abbrev LeavesOut : ℕ → Visit → Type 0
LeavesOut i v =
    (n : Node) (done done' : List ℕ)
    → mem i done ≡ false
    → v n done ≡ ok done'
    → mem i done' ≡ false

visit_all-LeavesOut :
    (i : ℕ) (v : Visit) (ns : List Node) (done done' : List ℕ)
    → LeavesOut i v
    → mem i done ≡ false
    → visit_all v ns done ≡ ok done'
    → mem i done' ≡ false
unfolding visit_all
visit_all-LeavesOut i v [] done done' leaves m h = rw (← ok-injective h) m
visit_all-LeavesOut i v (n ∷ ns) done done' leaves m h =
    let (mid, first, rest) = >>=-eq-ok (v n done) (visit_all v ns) h in
    visit_all-LeavesOut i v ns mid done' leaves (leaves n done mid m first) rest

left_out :
    (i j : ℕ) (mid active : List ℕ)
    → mem i active ≡ true
    → mem j active ≡ false
    → mem i mid ≡ false
    → mem i (j ∷ mid) ≡ false
left_out i j mid active a b m = elim (Bool-cases (i == j)) [
  | inl e ↦ cc (a, subst (λ t. mem t active ≡ false) (sym ((==_iff i j).0 e)) b)
  | inr e ↦ rw (e, m)
]

visit-leaf :
    (levels : ℕ) (children : Children) (active done done' : List ℕ)
    → visit (suc levels) children active leaf done ≡ ok done'
    → done ≡ done'
unfolding visit
visit-leaf levels children active done done' h = ok-injective h

visit-LeavesOut :
    (levels : ℕ) (children : Children) (active : List ℕ) (i : ℕ)
    → mem i active ≡ true
    → LeavesOut i (visit levels children active)
visit-LeavesOut zero children active i a n done done' m h = unfold visit in cc
visit-LeavesOut (suc levels) children active i a leaf done done' m h =
    rw (← visit-leaf levels children active done done' h) m
visit-LeavesOut (suc levels) children active i a (container j) done done' m h =
    let v = visit-Visited levels children active j done done' h in
    rw (← v.last) (
      left_out i j v.mid active a v.idle (
        visit_all-LeavesOut i _ (children j) done v.mid
          (visit-LeavesOut levels children (j ∷ active) i (rw a (or_true (i == j)))) m v.below))

visit-Grows :
    (levels : ℕ) (children : Children) (active : List ℕ)
    → VisitGrows children (visit levels children active)
visit-Grows zero children active n done done' o h = unfold visit in cc
visit-Grows (suc levels) children active leaf done done' o h =
    subst (Grows children (leaf ∷ []) done) (visit-leaf levels children active done done' h)
      (leaf-Grows children done o)
visit-Grows (suc levels) children active (container i) done done' o h =
    let v = visit-Visited levels children active i done done' h in
    subst (Grows children (container i ∷ []) done) v.last (
      Grows-complete children i done v.mid
        (visit_all-LeavesOut i _ (children i) done v.mid
          (visit-LeavesOut levels children (i ∷ active) i (mem_self i active)) v.new v.below)
        (visit_all-Grows children _ (children i) done v.mid
          (visit-Grows levels children (i ∷ active)) o v.below))

-- A document that `_validate_yaml_graph` accepts is a tree: in the list of its containers no
-- identity stands twice, every container comes before its parent, the root and all that any of
-- them holds are listed, and there is one container more than places that hold one, or none if the
-- root is a scalar.
pub validate_yaml_graph-tree :
    (children : Children) (root : Node) (done : List ℕ)
    → validate_yaml_graph children root ≡ ok done
    → IsOrdered children done
      × AllIn (root ∷ []) done
      × (length done ≡ edges children done + references (root ∷ []))
validate_yaml_graph-tree children root done h =
    let g = visit-Grows all_levels children [] root [] done tt (unfold validate_yaml_graph in h) in
    (g.ordered, g.reached, omega (arith, g.counted))
