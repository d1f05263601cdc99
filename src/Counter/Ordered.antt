-- ===== src/Counter/Ordered.antt =====
-- The order on digests: total, transitive and antisymmetric.
use Prim.Native.String.compare
use Prim.Native.String.{compare, then, [], ◌∷◌}
use Prim.Native.Char.{Char, code}
use Prim.Native.Nat.{Ordering, compare as compare_ℕ}
use text.Mathlib.Text.{is_le}
use text.Mathlib.TextEquality.{codes_equal}
use claim_ci.Prelude.{
  ℕ, ◌≡◌, refl, ap, ◌∙◌, Bool, true, false, ◌&&◌, ◌||◌, String, arith, ltb, ◌==◌,
}

unfoldable pub le : String → String → Bool
le s t = is_le (compare s t)

joined : Ordering → Ordering → Bool
joined Ordering.lt p = true
joined Ordering.eq p = is_le p
joined Ordering.gt p = false

is_le-then : (o p : Ordering) → is_le (then o p) ≡ joined o p
unfolding joined
is_le-then Ordering.lt p = refl
is_le-then Ordering.eq p = refl
is_le-then Ordering.gt p = refl

is_eq : Ordering → Bool
is_eq Ordering.eq = true
is_eq _ = false

is_eq-true : (o : Ordering) → is_eq o ≡ true → o ≡ Ordering.eq
unfolding is_eq
is_eq-true Ordering.eq h = refl
is_eq-true Ordering.lt h = cc
is_eq-true Ordering.gt h = cc

joined_split :
    (a b : ℕ) (p : Ordering) → joined (compare_ℕ a b) p ≡ (ltb a b || (a == b && is_le p))
unfolding joined
joined_split a b p = ground arith

le-cons :
    (c d : Char) (s t : String)
    → le (c ∷ s) (d ∷ t) ≡ (ltb (code c) (code d) || (code c == code d && le s t))
unfolding le
le-cons c d s t =
    ap is_le (compare.cons-cons c d s t)
    ∙ is_le-then _ _
    ∙ joined_split (code c) (code d) (compare s t)

le-nil : (d : Char) (t : String) → le [] (d ∷ t) ≡ true
unfolding le
le-nil d t = ap is_le (compare.nil-cons d t)

cons-le : (d : Char) (t : String) → le (d ∷ t) [] ≡ false
unfolding le
cons-le d t = ap is_le (compare.cons-nil d t)

same_char : (c d : Char) → (code c == code d) ≡ true → c ≡ d
same_char c d h = codes_equal c d (ground arith)

pub le_total : (s t : String) → le s t ≡ false → le t s ≡ true
le_total [] [] h = unfold le in refl
le_total [] (d ∷ t) h = ground (arith, le-nil d t)
le_total (c ∷ s) [] h = le-nil c s
le_total (c ∷ s) (d ∷ t) h = ground (arith, le-cons c d s t, le-cons d c t s, le_total s t)

pub le_trans : (s t u : String) → le s t ≡ true → le t u ≡ true → le s u ≡ true
le_trans [] t [] h k = unfold le in refl
le_trans [] t (e ∷ u) h k = le-nil e u
le_trans (c ∷ s) [] u h k = ground (arith, cons-le c s)
le_trans (c ∷ s) (d ∷ t) [] h k = ground (arith, cons-le d t)
le_trans (c ∷ s) (d ∷ t) (e ∷ u) h k =
    ground (arith, le-cons c d s t, le-cons d e t u, le-cons c e s u, le_trans s t u)

pub le_antisym : (s t : String) → le s t ≡ true → le t s ≡ true → s ≡ t
le_antisym [] [] h k = refl
le_antisym [] (d ∷ t) h k = ground (arith, cons-le d t)
le_antisym (c ∷ s) [] h k = ground (arith, cons-le c s)
le_antisym (c ∷ s) (d ∷ t) h k =
    let split : ((code c == code d) ≡ true) × (le s t ≡ true) × (le t s ≡ true) =
      ground (arith, le-cons c d s t, le-cons d c t s) in
    λ i. same_char c d split.0 i ∷ le_antisym s t split.1 split.2 i
