-- ===== src/Parsing/Graph/Acyclic.antt =====
-- `_validate_yaml_graph`: containers inside one another.
use claim_ci.Prelude.{
  ℕ, suc, ◌≡◌, subst, sym, true, false, ◌==◌, List, [], ◌∷◌, length, ◌<◌, ◌≤◌, arith, if◌then◌else◌,
  Bool-cases, inl, inr, ==_iff,
}
use claim_ci.Models.{ok}
use claim_ci.Parsing.Graph.{Node, leaf, container, Children, mem, validate_yaml_graph}
use claim_ci.Parsing.Graph.Forest.{AllIn, Holds, IsOrdered, validate_yaml_graph-tree}

-- Inside: one container holds another, directly or through others.
pub data Inside (children : Children) (i : ℕ) : ℕ → Type 0 where
  held : {j : ℕ} → Holds i (children j) → Inside children i j
  deeper : {j k : ℕ} → Inside children i j → Holds j (children k) → Inside children i k

-- How many listed containers come after one in the list, and itself.
abbrev rank : ℕ → List ℕ → ℕ
rank i [] = 0
rank i (j ∷ done) = if i == j then suc (length done) else rank i done

rank-le : (i : ℕ) (done : List ℕ) → rank i done ≤ length done
rank-le i [] = omega arith
rank-le i (j ∷ done) = ground (arith, rank-le i done)

Holds-AllIn :
    (i : ℕ) (ns : List Node) (done : List ℕ) → Holds i ns → AllIn ns done → mem i done ≡ true
Holds-AllIn i [] done h a = absurd h
Holds-AllIn i (leaf ∷ ns) done h a = Holds-AllIn i ns done h a
Holds-AllIn i (container j ∷ ns) done (inl e) a = subst (λ t. mem t done ≡ true) (sym e) a.0
Holds-AllIn i (container j ∷ ns) done (inr h) a = Holds-AllIn i ns done h a.1

apart_of_mem : (i j : ℕ) (done : List ℕ) → mem i done ≡ true → mem j done ≡ false → (i == j) ≡ false
apart_of_mem i j done m n = elim (Bool-cases (i == j)) [
  | inl e ↦ cc (m, subst (λ t. mem t done ≡ false) (sym ((==_iff i j).0 e)) n)
  | inr e ↦ e
]

-- What a listed container holds is listed, and stands later.
step_down :
    (children : Children) (done : List ℕ) (i k : ℕ)
    → IsOrdered children done
    → mem k done ≡ true
    → Holds i (children k)
    → (mem i done ≡ true) × (rank i done < rank k done)
step_down children [] i k o m h = cc
step_down children (j ∷ done) i k (new, all_in, o) m h = elim (Bool-cases (k == j)) [
  | inl e ↦
      let there =
        Holds-AllIn i (children j) done (subst (λ t. Holds i (children t)) ((==_iff k j).0 e) h)
          all_in in
      let other = apart_of_mem i j done there new in
      (rw (other, there), rw (other, e) (omega (arith, rank-le i done)))
  | inr e ↦
      let (there, less) = step_down children done i k o (rw e at m) h in
      let other = apart_of_mem i j done there new in (rw (other, there), rw (other, e) less)
]

Inside-lower :
    (children : Children) (done : List ℕ) (i k : ℕ)
    → IsOrdered children done
    → mem k done ≡ true
    → Inside children i k
    → (mem i done ≡ true) × (rank i done < rank k done)
Inside-lower children done i k o m (held h) = step_down children done i k o m h
Inside-lower children done i k o m (deeper {j = j} r h) =
    let (there, less) = step_down children done j k o m h in
    let (listed, lower) = Inside-lower children done i j o there r in
    (listed, omega (arith, less, lower))

-- No container of an accepted document is inside itself: recursive aliases are rejected.
pub validate_yaml_graph-acyclic :
    (children : Children) (root : Node) (done : List ℕ) (i : ℕ)
    → validate_yaml_graph children root ≡ ok done
    → mem i done ≡ true
    → ¬ Inside children i i
validate_yaml_graph-acyclic children root done i h m r =
    let (o, _, _) = validate_yaml_graph-tree children root done h in
    let (_, less) = Inside-lower children done i i o m r in absurd (omega (arith, less))
