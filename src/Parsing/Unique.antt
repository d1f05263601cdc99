-- ===== src/Parsing/Unique.antt =====
-- `unique_json_object` on the pairs of an object.
use claim_ci.Prelude.{
  ◌≡◌, refl, ◌∙◌, ap, Bool, true, not, ◌&&◌, ◌||◌, any, List, [], ◌∷◌, String, str_eq, arith,
  if◌then◌else◌,
}
use claim_ci.Value.{Value, Fields, str, end, field, get}
use claim_ci.Models.{ok, err, malformed}
use claim_ci.Parsing.{append, is_present, unique_into, unique_json_object}

abbrev pub Pair : Type 0
Pair = String × Value

-- No two pairs have one key.
abbrev pub distinct_keys : List Pair → Bool
distinct_keys [] = true
distinct_keys ((k, v) ∷ ps) = not (any (λ p. str_eq k p.0) ps) && distinct_keys ps

-- The pairs as the entries of a mapping, in their order.
abbrev pub to_fields : List Pair → Fields
to_fields [] = end
to_fields ((k, v) ∷ ps) = field (str k) v (to_fields ps)

abbrev join : Fields → List Pair → Fields
join f [] = f
join f ((k, v) ∷ ps) = join (append f k v) ps

abbrev fresh : Fields → List Pair → Bool
fresh f [] = true
fresh f ((k, v) ∷ ps) = not (is_present (get k f)) && fresh f ps

present-append :
    (f : Fields) (k j : String) (v : Value)
    → is_present (get j (append f k v)) ≡ (str_eq k j || is_present (get j f))
unfolding get
present-append end k j v = ground arith
present-append (field (str i) w rest) k j v = ground (arith, present-append rest k j v)
present-append (field _ w rest) k j v = present-append rest k j v

fresh-append :
    (f : Fields) (k : String) (v : Value) (ps : List Pair)
    → fresh (append f k v) ps ≡ (not (any (λ p. str_eq k p.0) ps) && fresh f ps)
fresh-append f k v [] = refl
fresh-append f k v ((j, w) ∷ ps) = ground (arith, present-append f k j v, fresh-append f k v ps)

unique_into-eq :
    (f : Fields) (ps : List Pair)
    → unique_into f ps ≡ (if fresh f ps && distinct_keys ps then ok (join f ps) else err malformed)
unfolding unique_into
unique_into-eq f [] = refl
unique_into-eq f ((k, v) ∷ ps) =
    ground (arith, unique_into-eq (append f k v) ps, fresh-append f k v ps)

join-field :
    (k : Value) (v : Value) (f : Fields) (ps : List Pair)
    → join (field k v f) ps ≡ field k v (join f ps)
join-field k v f [] = refl
join-field k v f ((j, w) ∷ ps) = join-field k v (append f j w) ps

join-end : (ps : List Pair) → join end ps ≡ to_fields ps
join-end [] = refl
join-end ((k, v) ∷ ps) = join-field (str k) v end ps ∙ ap (field (str k) v) (join-end ps)

fresh-end : (ps : List Pair) → fresh end ps ≡ true
unfolding get
fresh-end [] = refl
fresh-end ((k, v) ∷ ps) = fresh-end ps

-- `unique_json_object` returns all the pairs of an object in their order where no key repeats,
-- and raises where one does.
pub unique_json_object-eq :
    (ps : List Pair)
    → unique_json_object ps ≡ (if distinct_keys ps then ok (to_fields ps) else err malformed)
unfolding unique_json_object
unique_json_object-eq ps = unique_into-eq end ps ∙ rw (fresh-end ps, join-end ps)
