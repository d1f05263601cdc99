-- ===== src/Parsing/Caught.antt =====
-- The checks of claimci/parsing.py raise nothing that the loaders do not catch.
use claim_ci.Prelude.{ℕ, zero, suc, ◌≡◌, refl, true, Bool-cases, inl, inr, List, [], ◌∷◌, String}
use claim_ci.Value.{Value, Fields, end, get}
use claim_ci.Models.{is_caught, malformed, require}
use claim_ci.Parsing.{
  Raw, constant, array, object, Raws, stop, next, Pairs, close, member, unique_into, is_present,
  append, unique_json_object, decode, decode_items, decode_pairs, walk, validate_json_graph,
  load_json,
}
use claim_ci.Parsing.Graph.{Children, Node, leaf, container, Visit, mem, visit_all, visit}
use claim_ci.Models.Caught.{bind-caught, require-caught}

unique_into-caught :
    (f : Fields) (pairs : List (String × Value)) → is_caught (unique_into f pairs) ≡ true
unfolding unique_into
unique_into-caught f [] = refl
unique_into-caught f ((key, v) ∷ pairs) = elim (Bool-cases (is_present (get key f))) [
  | inl e ↦ rw e refl
  | inr e ↦ rw e (unique_into-caught (append f key v) pairs)
]

mutual
  unfolding decode unique_json_object

  decode-caught : (r : Raw) → is_caught (decode r) ≡ true
  decode-caught (Raw.null) = refl
  decode-caught (Raw.bool b) = refl
  decode-caught (Raw.int n) = refl
  decode-caught (Raw.float x) = refl
  decode-caught (Raw.str s) = refl
  decode-caught (constant token) = refl
  decode-caught (array xs) = bind-caught (decode_items xs) _ (decode_items-caught xs) λ a e. refl
  decode-caught (object ps) =
      bind-caught (decode_pairs ps) _ (decode_pairs-caught ps)
        λ pairs e. bind-caught (unique_into end pairs) _ (unique_into-caught end pairs) λ f g. refl

  decode_items-caught : (xs : Raws) → is_caught (decode_items xs) ≡ true
  decode_items-caught stop = refl
  decode_items-caught (next x xs) =
      bind-caught (decode x) _ (decode-caught x)
        λ v e. bind-caught (decode_items xs) _ (decode_items-caught xs) λ vs f. refl

  decode_pairs-caught : (ps : Pairs) → is_caught (decode_pairs ps) ≡ true
  decode_pairs-caught close = refl
  decode_pairs-caught (member key x ps) =
      bind-caught (decode x) _ (decode-caught x)
        λ v e. bind-caught (decode_pairs ps) _ (decode_pairs-caught ps) λ rest f. refl

pub load_json-caught : (raw : Raw) → is_caught (load_json raw) ≡ true
unfolding load_json validate_json_graph
load_json-caught raw = bind-caught (decode raw) _ (decode-caught raw) λ v e.
    bind-caught (require (walk 0 v) malformed) _ (require-caught _ malformed refl) λ u f. refl

visit_all-caught :
    (v : Visit) (ns : List Node) (completed : List ℕ)
    → ((n : Node) (c : List ℕ) → is_caught (v n c) ≡ true)
    → is_caught (visit_all v ns completed) ≡ true
unfolding visit_all
visit_all-caught v [] completed h = refl
visit_all-caught v (n ∷ ns) completed h =
    bind-caught (v n completed) (visit_all v ns) (h n completed) λ c e. visit_all-caught v ns c h

pub visit-caught :
    (levels : ℕ) (children : Children) (active : List ℕ) (n : Node) (completed : List ℕ)
    → is_caught (visit levels children active n completed) ≡ true
unfolding visit
visit-caught zero children active n completed = refl
visit-caught (suc levels) children active leaf completed = refl
visit-caught (suc levels) children active (container i) completed =
    elim (Bool-cases (mem i active)) [
      | inl e ↦ rw e refl
      | inr e ↦ elim (Bool-cases (mem i completed)) [
        | inl f ↦ rw (e, f) refl
        | inr f ↦
            rw (e, f)
              (bind-caught (visit_all (visit levels children (i ∷ active)) (children i) completed) _
                (visit_all-caught _ (children i) completed
                  (visit-caught levels children (i ∷ active)))
                λ c g. refl)
      ]
    ]
