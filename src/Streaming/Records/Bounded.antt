-- ===== src/Streaming/Records/Bounded.antt =====
-- `_validate_record_graph`: which records it accepts.
use claim_ci.Prelude.{
  ℕ, zero, suc, ◌+◌, ◌≤◌, ◌≡◌, ◌↔◌, refl, Bool, true, false, not, ◌&&◌, leb, ltb, none, some, List,
  [], ◌∷◌, ◌++◌, map, arith, Bool-cases, inl, inr,
}
use claim_ci.Value.{
  finite, infinite, nan, Value, null, bool, int, float, str, list, mapping, opaque, Items, nil,
  item, Fields, end, field,
}
use claim_ci.Counter.Ordered.{le}
use claim_ci.Streaming.Report.{StreamingLimits}
use claim_ci.Streaming.Records.{
  is_nonfinite, key_text, Entries, insert_entry, sorted_entries, items_of, interleaved, children_of,
  Visit, rejects, expands, visit_node, at_depth, visit_stack, root_depth, validate_record_graph,
}

-- The number of nodes of a record, keys included.
unfoldable mutual
  pub nodes : Value → ℕ
  nodes (list xs) = suc (nodes_items xs)
  nodes (mapping f) = suc (nodes_fields f)
  nodes v = 1

  pub nodes_items : Items → ℕ
  nodes_items nil = 0
  nodes_items (item v xs) = nodes v + nodes_items xs

  pub nodes_fields : Fields → ℕ
  nodes_fields end = 0
  nodes_fields (field k v rest) = nodes k + (nodes v + nodes_fields rest)

-- Every float is finite, and every container stands at a depth within the limit.
unfoldable mutual
  pub fine : StreamingLimits → ℕ → Value → Bool
  fine l depth (list xs) = leb depth l.max_depth && fine_items l (suc depth) xs
  fine l depth (mapping f) = leb depth l.max_depth && fine_fields l (suc depth) f
  fine l depth (float x) = not (is_nonfinite (float x))
  fine l depth v = true

  pub fine_items : StreamingLimits → ℕ → Items → Bool
  fine_items l depth nil = true
  fine_items l depth (item v xs) = fine l depth v && fine_items l depth xs

  pub fine_fields : StreamingLimits → ℕ → Fields → Bool
  fine_fields l depth end = true
  fine_fields l depth (field k v rest) =
      fine l depth k && (fine l depth v && fine_fields l depth rest)

total_nodes : List (Value × ℕ) → ℕ
total_nodes [] = 0
total_nodes ((v, depth) ∷ stack) = nodes v + total_nodes stack

all_fine : StreamingLimits → List (Value × ℕ) → Bool
all_fine l [] = true
all_fine l ((v, depth) ∷ stack) = fine l depth v && all_fine l stack

total_nodes-append :
    (xs ys : List (Value × ℕ)) → total_nodes (xs ++ ys) ≡ total_nodes xs + total_nodes ys
unfolding total_nodes
total_nodes-append [] ys = omega arith
total_nodes-append (x ∷ xs) ys = omega (arith, total_nodes-append xs ys)

all_fine-append :
    (l : StreamingLimits) (xs ys : List (Value × ℕ))
    → all_fine l (xs ++ ys) ≡ (all_fine l xs && all_fine l ys)
unfolding all_fine
all_fine-append l [] ys = refl
all_fine-append l (x ∷ xs) ys = ground (arith, all_fine-append l xs ys)

module _ (l : StreamingLimits) (depth : ℕ) where
  -- The nodes and the state of values that are pushed together.
  pushed : List Value → ℕ
  pushed vs = total_nodes (map (at_depth depth) vs)

  pushed_fine : List Value → Bool
  pushed_fine vs = all_fine l (map (at_depth depth) vs)

  items-pushed :
      (xs : Items)
      → (nodes_items xs ≡ pushed (items_of xs))
        × (fine_items l depth xs ≡ pushed_fine (items_of xs))
  unfolding pushed pushed_fine total_nodes all_fine items_of nodes_items fine_items
  items-pushed nil = (refl, refl)
  items-pushed (item v xs) =
      let rest = items-pushed xs in (omega (arith, rest.0), ground (arith, rest.1))

  insert-pushed :
      (e : Value × Value) (es : Entries)
      → (pushed (interleaved (insert_entry e es))
          ≡ nodes e.0 + (nodes e.1 + pushed (interleaved es)))
        × (pushed_fine (interleaved (insert_entry e es))
            ≡ (fine l depth e.0 && (fine l depth e.1 && pushed_fine (interleaved es))))
  unfolding pushed pushed_fine total_nodes all_fine interleaved insert_entry
  insert-pushed e [] = (refl, refl)
  insert-pushed e (f ∷ es) =
      let rest = insert-pushed e es in
      elim (Bool-cases (le (key_text e.0) (key_text f.0))) [
        | inl h ↦ rw h (refl, refl)
        | inr h ↦ rw h (omega (arith, rest.0), ground (arith, rest.1))
      ]

  fields-pushed :
      (f : Fields)
      → (nodes_fields f ≡ pushed (interleaved (sorted_entries f)))
        × (fine_fields l depth f ≡ pushed_fine (interleaved (sorted_entries f)))
  unfolding sorted_entries nodes_fields fine_fields
  fields-pushed end = unfold pushed pushed_fine total_nodes all_fine interleaved in (refl, refl)
  fields-pushed (field k v rest) =
      let (n, b) = fields-pushed rest in
      let (m, c) = insert-pushed (k, v) (sorted_entries rest) in
      (omega (arith, n, m), ground (arith, b, c))

-- A visit that rejects a node is right to; the others push what is left of it.
Visited : StreamingLimits → Value → ℕ → Visit → Type 0
Visited l v depth (rejects reason) = fine l depth v ≡ false
Visited l v depth (expands children) =
    (nodes v ≡ suc (pushed l (suc depth) children))
    × (fine l depth v ≡ pushed_fine l (suc depth) children)

visit_node-Visited :
    (l : StreamingLimits) (v : Value) (depth : ℕ) → Visited l v depth (visit_node l v depth)
unfolding visit_node Visited children_of nodes fine
visit_node-Visited l null depth = unfold pushed pushed_fine total_nodes all_fine in (refl, refl)
visit_node-Visited l (bool b) depth = unfold pushed pushed_fine total_nodes all_fine in (refl, refl)
visit_node-Visited l (int n) depth = unfold pushed pushed_fine total_nodes all_fine in (refl, refl)
visit_node-Visited l (float (finite m e)) depth =
    unfold pushed pushed_fine total_nodes all_fine in (refl, refl)
visit_node-Visited l (float (infinite b)) depth = refl
visit_node-Visited l (float nan) depth = refl
visit_node-Visited l (str s) depth = unfold pushed pushed_fine total_nodes all_fine in (refl, refl)
visit_node-Visited l (opaque n) depth =
    unfold pushed pushed_fine total_nodes all_fine in (refl, refl)
visit_node-Visited l (list xs) depth = elim (Bool-cases (ltb l.max_depth depth)) [
  | inl h ↦ rw h (ground (arith, h))
  | inr h ↦ rw h (
      let rest = items-pushed l (suc depth) xs in
      (omega (arith, rest.0), ground (arith, h, rest.1)))
]
visit_node-Visited l (mapping f) depth = elim (Bool-cases (ltb l.max_depth depth)) [
  | inl h ↦ rw h (ground (arith, h))
  | inr h ↦ rw h (
      let rest = fields-pushed l (suc depth) f in
      (omega (arith, rest.0), ground (arith, h, rest.1)))
]

Accepts : ℕ → StreamingLimits → List (Value × ℕ) → Type 0
Accepts left l stack = (total_nodes stack ≤ left) × (all_fine l stack ≡ true)

nodes_positive : (v : Value) → 1 ≤ nodes v
unfolding nodes
nodes_positive (list xs) = omega arith
nodes_positive (mapping f) = omega arith
nodes_positive null = omega arith
nodes_positive (bool b) = omega arith
nodes_positive (int n) = omega arith
nodes_positive (float x) = omega arith
nodes_positive (str s) = omega arith
nodes_positive (opaque n) = omega arith

stack_step :
    (l : StreamingLimits) (left : ℕ) (v : Value) (depth : ℕ) (stack : List (Value × ℕ)) (r : Visit)
    → Visited l v depth r
    → ((children : List Value)
        → (visit_stack left l (map (at_depth (suc depth)) children ++ stack) ≡ none)
          ↔ Accepts left l (map (at_depth (suc depth)) children ++ stack))
    → ((elim r [
      | rejects reason ↦ some reason
      | expands children ↦ visit_stack left l (map (at_depth (suc depth)) children ++ stack)
    ])
        ≡ none)
      ↔ Accepts (suc left) l ((v, depth) ∷ stack)
unfolding Visited Accepts total_nodes all_fine
stack_step l left v depth stack (rejects reason) wrong rest = ground (arith, wrong)
stack_step l left v depth stack (expands children) (n, b) rest =
    let (there, back) = rest children in
    let size = total_nodes-append (map (at_depth (suc depth)) children) stack in
    let good = all_fine-append l (map (at_depth (suc depth)) children) stack in
    unfold pushed pushed_fine in
    (
      λ h. let (low, ok) = there h in (omega (arith, n, size, low), ground (arith, b, good, ok)),
      λ a. back (omega (arith, n, size, a.0), ground (arith, b, good, a.1)),
    )

visit_stack-Accepts :
    (left : ℕ) (l : StreamingLimits) (stack : List (Value × ℕ))
    → (visit_stack left l stack ≡ none) ↔ Accepts left l stack
unfolding visit_stack
visit_stack-Accepts left l [] =
    unfold Accepts total_nodes all_fine in (λ h. (omega arith, refl), λ a. refl)
visit_stack-Accepts zero l ((v, depth) ∷ stack) =
    unfold Accepts total_nodes in (λ h. cc, λ a. absurd (omega (arith, nodes_positive v, a.0)))
visit_stack-Accepts (suc left) l ((v, depth) ∷ stack) =
    stack_step l left v depth stack (visit_node l v depth) (visit_node-Visited l v depth)
      (λ children. visit_stack-Accepts left l (map (at_depth (suc depth)) children ++ stack))

-- `_validate_record_graph` accepts a record exactly when it has no more nodes than the limit, keys
-- included, every float in it is finite, and no container is nested deeper than the limit; in
-- whatever order the keys are visited.
pub validate_record_graph_iff :
    (l : StreamingLimits) (v : Value)
    → (validate_record_graph l v ≡ none)
      ↔ ((nodes v ≤ l.max_nodes_per_record) × (fine l (root_depth v) v ≡ true))
unfolding validate_record_graph
validate_record_graph_iff l v =
    let (there, back) = visit_stack-Accepts l.max_nodes_per_record l ((v, root_depth v) ∷ []) in
    unfold Accepts total_nodes all_fine in
    (
      λ h. let (low, ok) = there h in (omega (arith, low), ground (arith, ok)),
      λ a. back (omega (arith, a.0), ground (arith, a.1)),
    )
