-- ===== src/Value.antt =====
-- The values that the YAML and JSON parsers return, and Python's `==` on them.
-- A float is infinite, not a number, or mantissa * 2 ^ exponent; an integer is exact. A mapping
-- keeps its entries in order. Two values that share a nan object are outside the model: here nan
-- equals nothing.
use claim_ci.Prelude.{
  ℕ, suc, ◌+◌, ◌*◌, ◌^◌, ◌≡◌, refl, Bool, true, false, ◌&&◌, Option, none, some, String, str_eq,
  ◌==◌, if◌then◌else◌,
}
use claim_ci.Prelude.Int.{ℤ, pos, pos_part, neg_part, ◌-ℤ◌, eq_ℤ}

pub data Float : Type 0 where
  finite : ℤ → ℤ → Float
  infinite : Bool → Float
  nan : Float

mutual
  pub data Value : Type 0 where
    null : Value
    bool : Bool → Value
    int : ℤ → Value
    float : Float → Value
    str : String → Value
    list : Items → Value
    mapping : Fields → Value
    -- a date, a set or another object of the loader, told apart by a number
    opaque : ℕ → Value

  pub data Items : Type 0 where
    nil : Items
    item : Value → Items → Items

  pub data Fields : Type 0 where
    end : Fields
    field : Value → Value → Fields → Fields

-- m * 2 ^ e ≡ n * 2 ^ f, compared at the smaller exponent
unfoldable pub eq_binary : ℤ → ℤ → ℤ → ℤ → Bool
unfolding ◌-ℤ◌
eq_binary m e n f =
    let up = 2 ^ pos_part (e -ℤ f) in
    let down = 2 ^ pos_part (f -ℤ e) in
    (pos_part m * up + neg_part n * down) == (pos_part n * down + neg_part m * up)

unfoldable pub eq_float : Float → Float → Bool
unfolding eq_binary
eq_float (finite m e) (finite n f) = eq_binary m e n f
eq_float (infinite true) (infinite true) = true
eq_float (infinite false) (infinite false) = true
eq_float _ _ = false

-- `True == 1`
abbrev pub of_bool : Bool → ℤ
of_bool true = pos 1
of_bool false = pos 0

abbrev pub of_int_float : ℤ → Float
of_int_float n = finite n (pos 0)

unfoldable pub eq_scalar : Value → Value → Bool
unfolding eq_float
eq_scalar null null = true
eq_scalar (bool a) (bool b) = eq_ℤ (of_bool a) (of_bool b)
eq_scalar (bool a) (int n) = eq_ℤ (of_bool a) n
eq_scalar (bool a) (float x) = eq_float (of_int_float (of_bool a)) x
eq_scalar (int m) (bool b) = eq_ℤ m (of_bool b)
eq_scalar (int m) (int n) = eq_ℤ m n
eq_scalar (int m) (float x) = eq_float (of_int_float m) x
eq_scalar (float x) (bool b) = eq_float x (of_int_float (of_bool b))
eq_scalar (float x) (int n) = eq_float x (of_int_float n)
eq_scalar (float x) (float y) = eq_float x y
eq_scalar (str s) (str t) = str_eq s t
eq_scalar (opaque i) (opaque j) = i == j
eq_scalar _ _ = false

abbrev pub size : Fields → ℕ
size end = 0
size (field k v rest) = suc (size rest)

-- The entry of the first key that passes `is_key` passes `is_value`.
abbrev pub has_entry : (Value → Bool) → (Value → Bool) → Fields → Bool
has_entry is_key is_value end = false
has_entry is_key is_value (field k v rest) =
    if is_key k then is_value v else has_entry is_key is_value rest

-- `a == b`: mappings are equal whatever the order of their entries.
unfoldable mutual
  unfolding eq_scalar

  pub eq_value : Value → Value → Bool
  eq_value (list xs) (list ys) = eq_items xs ys
  eq_value (list xs) _ = false
  eq_value (mapping f) (mapping g) = (size f == size g) && within f g
  eq_value (mapping f) _ = false
  eq_value v w = eq_scalar v w

  pub eq_items : Items → Items → Bool
  eq_items nil nil = true
  eq_items (item v xs) (item w ys) = eq_value v w && eq_items xs ys
  eq_items nil (item w ys) = false
  eq_items (item v xs) nil = false

  pub within : Fields → Fields → Bool
  within end g = true
  within (field k v rest) g = has_entry (eq_value k) (eq_value v) g && within rest g

-- `mapping.get(key)` for a text key; `none` where the key is missing
unfoldable pub get : String → Fields → Option Value
get key end = none
get key (field (str k) v rest) = if str_eq k key then some v else get key rest
get key (field _ v rest) = get key rest

-- `a != b` where a missing value stands for the sentinel `_MISSING`, equal to itself alone
unfoldable pub eq_lookup : Option Value → Option Value → Bool
unfolding eq_value
eq_lookup none none = true
eq_lookup none (some w) = false
eq_lookup (some v) none = false
eq_lookup (some v) (some w) = eq_value v w

reordered :
    eq_value
      (mapping (field (str "a") (int (pos 1)) (field (str "b") null end)))
      (mapping (field (str "b") null (field (str "a") (float (finite (pos 1) (pos 0))) end)))
    ≡ true
unfolding eq_value
reordered = refl
