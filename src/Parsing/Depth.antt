-- ===== src/Parsing/Depth.antt =====
-- `validate_json_graph` and the height of a value.
use claim_ci.Prelude.{
  ℕ, suc, ◌+◌, ◌≡◌, Bool, true, ◌&&◌, leb, max, ◌≤◌, Bool-ext, leb→le, le→leb, and_split, ◌∙◌,
  arith, if◌then◌else◌,
}
use claim_ci.Value.{Value, Items, Fields, list, mapping, nil, item, end, field}
use claim_ci.Models.{ok, err, malformed}
use claim_ci.Parsing.{walk, walk_items, walk_fields, max_nesting_depth, validate_json_graph}

-- How many containers stand around the innermost value; a key counts as a value.
unfoldable mutual
  pub height : Value → ℕ
  height (list xs) = height_items xs
  height (mapping f) = height_fields f
  height v = 0

  pub height_items : Items → ℕ
  height_items nil = 0
  height_items (item v xs) = max (suc (height v)) (height_items xs)

  pub height_fields : Fields → ℕ
  height_fields end = 0
  height_fields (field k v rest) = max (suc (height k)) (max (suc (height v)) (height_fields rest))

add-suc-eq : (d p : ℕ) → d + suc p ≡ d + 1 + p
add-suc-eq d p = omega arith

both_fit : (d a b : ℕ) → leb (d + max a b) 256 ≡ (leb (d + a) 256 && leb (d + b) 256)
both_fit d a b =
    Bool-ext _ _ (λ h. max_fits d a b (leb→le _ _ h))
      λ h.
        let (l, r) = and_split {a = leb (d + a) 256} {b = leb (d + b) 256} h in
        le→leb _ _ (omega (arith, leb→le _ _ l, leb→le _ _ r))
  where
    max_fits : (d a b : ℕ) → d + max a b ≤ 256 → (leb (d + a) 256 && leb (d + b) 256) ≡ true
    max_fits d a b h = rw (le→leb (d + a) 256 (omega arith), le→leb (d + b) 256 (omega arith))

swap_tests : (x w r : Bool) → (x && (w && r)) ≡ (w && (x && r))
swap_tests x w r = ground arith

-- One child more, under the test that its container passed.
child_fits :
    (d p q : ℕ) (w r : Bool)
    → w ≡ leb (d + 1 + p) 256
    → (leb d 256 && r) ≡ leb (d + q) 256
    → (leb d 256 && (w && r)) ≡ leb (d + max (suc p) q) 256
child_fits d p q w r h k =
    swap_tests (leb d 256) w r ∙ rw (k, h, both_fit d (suc p) q, add-suc-eq d p)

mutual
  unfolding walk height

  walk-height : (v : Value) (depth : ℕ) → walk depth v ≡ leb (depth + height v) 256
  walk-height (list xs) depth = ground (arith, walk_items-height xs depth)
  walk-height (mapping f) depth = ground (arith, walk_fields-height f depth)
  walk-height _ depth = ground arith

  walk_items-height :
      (xs : Items) (depth : ℕ)
      → (leb depth 256 && walk_items (depth + 1) xs) ≡ leb (depth + height_items xs) 256
  walk_items-height nil depth = ground arith
  walk_items-height (item v xs) depth =
      child_fits depth (height v) (height_items xs) _ _ (walk-height v (depth + 1))
        (walk_items-height xs depth)

  walk_fields-height :
      (f : Fields) (depth : ℕ)
      → (leb depth 256 && walk_fields (depth + 1) f) ≡ leb (depth + height_fields f) 256
  walk_fields-height end depth = ground arith
  walk_fields-height (field k v rest) depth =
      child_fits depth (height k) _ _ _ (walk-height k (depth + 1)) (
        child_fits depth (height v) (height_fields rest) _ _ (walk-height v (depth + 1))
          (walk_fields-height rest depth))

-- `validate_json_graph` accepts a value exactly when at most 256 containers are nested in one
-- another around any part of it, and raises otherwise.
pub validate_json_graph-height :
    (v : Value)
    → validate_json_graph v ≡ (if leb (height v) max_nesting_depth then ok tt else err malformed)
unfolding validate_json_graph
validate_json_graph-height v = ground (arith, walk-height v 0)
