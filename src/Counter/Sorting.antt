-- ===== src/Counter/Sorting.antt =====
-- `sorted` on digests, in the order of their characters.
use Prim.Native.String.{compare}
use text.Mathlib.Text.{is_le}
use mathlib.Core.List.{Perm}
use mathlib.Core.List.Perm
use claim_ci.Prelude.{List, [], ◌∷◌, String, Bool-cases, inl, inr, if◌then◌else◌}

unfoldable pub insert : String → List String → List String
insert x [] = x ∷ []
insert x (y ∷ ys) = if is_le (compare x y) then x ∷ y ∷ ys else y ∷ insert x ys

unfoldable pub sorted : List String → List String
unfolding insert
sorted [] = []
sorted (x ∷ xs) = insert x (sorted xs)

insert-Perm : (x : String) (ys : List String) → Perm (insert x ys) (x ∷ ys)
unfolding insert
insert-Perm x [] = Perm.refl _
insert-Perm x (y ∷ ys) = elim (Bool-cases (is_le (compare x y))) [
  | inl e ↦ rw e (Perm.refl _)
  | inr e ↦ rw e (Perm.trans (Perm.cons y (insert-Perm x ys)) (Perm.swap _ _ _))
]

-- Sorting neither adds nor drops a digest.
pub sorted-Perm : (xs : List String) → Perm (sorted xs) xs
unfolding sorted
sorted-Perm [] = Perm.refl []
sorted-Perm (x ∷ xs) = Perm.trans (insert-Perm x (sorted xs)) (Perm.cons x (sorted-Perm xs))
