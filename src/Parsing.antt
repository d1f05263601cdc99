-- ===== src/Parsing.antt =====
-- claimci/parsing.py: objects with unique keys, bounded nesting, and graphs of YAML containers.
-- The JSON grammar itself is the standard library's: what its decoder hands over, innermost
-- first, is a `Raw` value, whose objects are still lists of pairs.
mod Syntax
pub mod Unique
pub mod Depth
pub mod Graph
pub mod Caught
pub use Syntax.{Raw, Raws, Pairs, constant, array, object, stop, next, close, member}
use claim_ci.Prelude.{
  ℕ, zero, suc, ◌+◌, ◌≡◌, refl, Bool, true, false, not, ◌&&◌, ltb, Option, none, some, List, [],
  ◌∷◌, String, str_eq, if◌then◌else◌,
}
use claim_ci.Prelude.Int.{ℤ, pos}
use claim_ci.Value.{
  Float, Value, Items, Fields, null, bool, int, float, str, list, mapping, opaque, nil, item, end,
  field, get,
}
use claim_ci.Models.{Result, ok, err, ClaimError, malformed, ◌>>=◌, ◌>>◌, require}

-- `result[key] = value` for a key that is not there: at the end of the insertion order
abbrev pub append : Fields → String → Value → Fields
append end key v = field (str key) v end
append (field k w rest) key v = field k w (append rest key v)

abbrev pub is_present : Option Value → Bool
is_present none = false
is_present (some v) = true

-- the loop of `unique_json_object` over its pairs
unfoldable pub unique_into : Fields → List (String × Value) → Result Fields
unfolding get
unique_into result [] = ok result
unique_into result ((key, v) ∷ pairs) =
    let rest = unique_into (append result key v) pairs in
    if is_present (get key result) then err malformed else rest

unfoldable pub unique_json_object : List (String × Value) → Result Fields
unfolding unique_into
unique_json_object pairs = unique_into end pairs

abbrev pub cons_item : Value → Items → Result Items
cons_item v xs = ok (item v xs)

-- `json.loads` with `unique_json_object` for its objects and `_reject_json_constant` for its
-- constants
unfoldable mutual
  unfolding unique_json_object

  pub decode : Raw → Result Value
  decode (Raw.null) = ok null
  decode (Raw.bool b) = ok (bool b)
  decode (Raw.int n) = ok (int n)
  decode (Raw.float x) = ok (float x)
  decode (Raw.str s) = ok (str s)
  decode (constant token) = err malformed
  decode (array xs) = decode_items xs >>= λ items. ok (list items)
  decode (object ps) = decode_pairs ps >>= λ pairs. unique_json_object pairs >>= λ f. ok (mapping f)

  pub decode_items : Raws → Result Items
  decode_items stop = ok nil
  decode_items (next x xs) = decode x >>= λ v. decode_items xs >>= λ vs. ok (item v vs)

  pub decode_pairs : Pairs → Result (List (String × Value))
  decode_pairs close = ok []
  decode_pairs (member key x ps) =
      decode x >>= λ v. decode_pairs ps >>= λ rest. ok ((key, v) ∷ rest)

abbrev pub max_nesting_depth : ℕ
max_nesting_depth = 256

-- `walk` of `validate_json_graph`; a decoded value is a tree, so no object is met inside itself.
unfoldable mutual
  pub walk : ℕ → Value → Bool
  walk depth (list xs) = not (ltb max_nesting_depth depth) && walk_items (depth + 1) xs
  walk depth (mapping f) = not (ltb max_nesting_depth depth) && walk_fields (depth + 1) f
  walk depth v = not (ltb max_nesting_depth depth)

  pub walk_items : ℕ → Items → Bool
  walk_items depth nil = true
  walk_items depth (item v xs) = walk depth v && walk_items depth xs

  pub walk_fields : ℕ → Fields → Bool
  walk_fields depth end = true
  walk_fields depth (field k v rest) = walk depth k && (walk depth v && walk_fields depth rest)

unfoldable pub validate_json_graph : Value → Result (Unit {0})
unfolding walk
validate_json_graph v = require (walk 0 v) malformed

-- A loader's steps on one text: decode, then bound the nesting.
unfoldable pub load_json : Raw → Result Value
unfolding decode validate_json_graph
load_json raw = do v ← decode raw; validate_json_graph v; ok v

duplicate_key : load_json (object (member "a" Raw.null (member "a" Raw.null close))) ≡ err malformed
unfolding load_json
duplicate_key = refl
