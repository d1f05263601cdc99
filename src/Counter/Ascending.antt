-- ===== src/Counter/Ascending.antt =====
-- Sorted keys: distinct keys with the same members are sorted to one list, so the ordered entries
-- of two counters are equal exactly when the counters count alike.
use claim_ci.Prelude.{
  is_empty, ◌≡◌, refl, ap, ◌∙◌, sym, subst, Bool, true, false, not, ◌&&◌, ◌||◌, List, [], ◌∷◌,
  String, str_eq, eq_iff, arith, if◌then◌else◌, Bool-cases, inl, inr,
}
use claim_ci.Counter.Ordered.{le, le_total, le_trans, le_antisym}
use claim_ci.Counter.Sorting.{insert, sorted}
use claim_ci.Counter.{Counter, has_key, keys, IsDistinct}

-- `key in items`
unfoldable pub has : String → List String → Bool
has j [] = false
has j (x ∷ xs) = str_eq x j || has j xs

abbrev pub before : String → List String → Bool
before x [] = true
before x (y ∷ ys) = (le x y && not (str_eq x y)) && before x ys

-- The digests grow.
abbrev pub IsAscending : List String → Type 0
IsAscending [] = Unit
IsAscending (x ∷ xs) = (before x xs ≡ true) × IsAscending xs

insert-cons :
    (x y : String) (ys : List String)
    → insert x (y ∷ ys) ≡ (if le x y then x ∷ y ∷ ys else y ∷ insert x ys)
unfolding insert le
insert-cons x y ys = refl

insert-nil : (x : String) → insert x [] ≡ x ∷ []
unfolding insert
insert-nil x = refl

has-cons : (j x : String) (xs : List String) → has j (x ∷ xs) ≡ (str_eq x j || has j xs)
unfolding has
has-cons j x xs = refl

has-insert : (j x : String) (ys : List String) → has j (insert x ys) ≡ (str_eq x j || has j ys)
has-insert j x [] = rw insert-nil (has-cons j x [])
has-insert j x (y ∷ ys) = elim (Bool-cases (le x y)) [
  | inl e ↦ rw (insert-cons, e) (has-cons j x (y ∷ ys))
  | inr e ↦ rw (insert-cons, e, has-cons, has-cons, has-insert j x ys) (ground arith)
]

pub has-sorted : (j : String) (xs : List String) → has j (sorted xs) ≡ has j xs
unfolding sorted
has-sorted j [] = refl
has-sorted j (x ∷ xs) =
    has-insert j x (sorted xs) ∙ ap (λ b. str_eq x j || b) (has-sorted j xs) ∙ sym (has-cons j x xs)

pub has-keys : (j : String) (c : Counter) → has j (keys c) ≡ has_key j c
unfolding has keys has_key
has-keys j [] = refl
has-keys j ((k, n) ∷ c) = ground (arith, has-keys j c)

before_le :
    (x y : String) (ys : List String)
    → le x y ≡ true
    → str_eq x y ≡ false
    → before y ys ≡ true
    → before x ys ≡ true
before_le x y [] h e b = refl
before_le x y (z ∷ ys) h e b = ground (
  arith,
  le_trans x y z,
  le_antisym x y,
  eq_iff x y,
  eq_iff x z,
  eq_iff y z,
  before_le x y ys h e,
)

before-insert :
    (x y : String) (ys : List String)
    → le y x ≡ true
    → str_eq y x ≡ false
    → before y ys ≡ true
    → before y (insert x ys) ≡ true
before-insert x y [] h e b = rw insert-nil (ground arith)
before-insert x y (z ∷ ys) h e b =
    let rest = before-insert x y ys h e in
    elim (Bool-cases (le x z)) [
      | inl f ↦ rw (insert-cons, f) (ground arith)
      | inr f ↦ rw (insert-cons, f) (ground (arith, rest))
    ]

at_key :
    (x y j : String)
    → str_eq y j ≡ true
    → (le x y ≡ true) × (str_eq x y ≡ false)
    → (le x j ≡ true) × (str_eq x j ≡ false)
at_key x y j e h = subst (λ t. (le x t ≡ true) × (str_eq x t ≡ false)) ((eq_iff y j).0 e) h

pub has-before :
    (x j : String) (ys : List String)
    → before x ys ≡ true
    → has j ys ≡ true
    → (le x j ≡ true) × (str_eq x j ≡ false)
has-before x j [] b h = unfold has in cc
has-before x j (y ∷ ys) b h = elim (Bool-cases (str_eq y j)) [
  | inl e ↦ at_key x y j e (ground arith)
  | inr e ↦ has-before x j ys (ground arith) (sym (rw (has-cons, e) refl) ∙ h)
]

insert-IsAscending :
    (x : String) (ys : List String) → has x ys ≡ false → IsAscending ys → IsAscending (insert x ys)
insert-IsAscending x [] fresh h = rw insert-nil (refl, tt)
insert-IsAscending x (y ∷ ys) fresh (b, h) =
    let other : (str_eq y x ≡ false) × (str_eq x y ≡ false) × (has x ys ≡ false) =
      unfold has in ground (arith, eq_iff x y, eq_iff y x) in
    elim (Bool-cases (le x y)) [
      | inl e ↦ rw (insert-cons, e) (ground (arith, before_le x y ys e), (b, h))
      | inr e ↦
          rw (insert-cons, e)
            (before-insert x y ys (le_total x y e) other.0 b, insert-IsAscending x ys other.2 h)
    ]

-- Sorting distinct keys puts them in order.
pub sorted-IsAscending : (c : Counter) → IsDistinct c → IsAscending (sorted (keys c))
unfolding sorted keys
sorted-IsAscending [] h = tt
sorted-IsAscending ((k, n) ∷ c) (fresh, h) =
    insert-IsAscending k (sorted (keys c)) (has-sorted k (keys c) ∙ has-keys k c ∙ fresh)
      (sorted-IsAscending c h)

self_in : (x : String) (xs : List String) → has x (x ∷ xs) ≡ true
unfolding has
self_in x xs = ground (arith, eq_iff x x)

same_head :
    (x y : String) (xs ys : List String)
    → before x xs ≡ true
    → before y ys ≡ true
    → has x (y ∷ ys) ≡ true
    → has y (x ∷ xs) ≡ true
    → str_eq x y ≡ true
unfolding has
same_head x y xs ys a b h k =
    ground (arith, has-before x y xs a, has-before y x ys b, le_antisym x y, eq_iff x y, eq_iff y x)

same_tail :
    (x j : String) (xs ys : List String)
    → before x xs ≡ true
    → before x ys ≡ true
    → has j (x ∷ xs) ≡ has j (x ∷ ys)
    → has j xs ≡ has j ys
unfolding has
same_tail x j xs ys a b h = ground (arith, has-before x j xs a, has-before x j ys b)

-- Two growing lists with the same members are one list.
ascending_unique :
    (xs ys : List String)
    → IsAscending xs
    → IsAscending ys
    → ((j : String) → has j xs ≡ has j ys)
    → xs ≡ ys
ascending_unique [] [] h k same = refl
ascending_unique [] (y ∷ ys) h k same =
    absurd (let e = same y in let t = self_in y ys in unfold has in ground arith)
ascending_unique (x ∷ xs) [] h k same =
    absurd (let e = same x in let t = self_in x xs in unfold has in ground arith)
ascending_unique (x ∷ xs) (y ∷ ys) (a, h) (b, k) same =
    let head : x ≡ y =
      (eq_iff x y).0
        (same_head x y xs ys a b (sym (same x) ∙ self_in x xs) (same y ∙ self_in y ys)) in
    let rest : xs ≡ ys = ascending_unique xs ys h k λ j.
      same_tail x j xs ys a (subst (λ t. before t ys ≡ true) (sym head) b)
        (same j ∙ ap (λ t. has j (t ∷ ys)) (sym head)) in
    λ i. head i ∷ rest i

-- Counters with the same keys list them in the same order.
pub sorted-keys :
    (c d : Counter)
    → IsDistinct c
    → IsDistinct d
    → ((j : String) → has_key j c ≡ has_key j d)
    → sorted (keys c) ≡ sorted (keys d)
sorted-keys c d hc hd same =
    ascending_unique _ _ (sorted-IsAscending c hc) (sorted-IsAscending d hd) λ j.
      has-sorted j (keys c)
      ∙ has-keys j c
      ∙ same j
      ∙ sym (has-keys j d)
      ∙ sym (has-sorted j (keys d))

is_empty-insert : (x : String) (ys : List String) → is_empty (insert x ys) ≡ false
is_empty-insert x [] = rw insert-nil refl
is_empty-insert x (y ∷ ys) = rw insert-cons (ground arith)

pub is_empty-sorted : (xs : List String) → is_empty (sorted xs) ≡ is_empty xs
unfolding sorted
is_empty-sorted [] = refl
is_empty-sorted (x ∷ xs) = is_empty-insert x (sorted xs)
