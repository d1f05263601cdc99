-- ===== src/Prelude/Names.antt =====
-- Lists of names.
use Prim.Native.String.{String}
use mathlib.Core.Bool.{Bool, false, ◌||◌}
use mathlib.Core.List.{List, [], ◌∷◌}
use claim_ci.Prelude.Lists.{any}
use claim_ci.Prelude.Text.{str_eq}
use claim_ci.Prelude.Tests.{if◌then◌else◌}

-- `name in names`
abbrev pub member : String → List String → Bool
member name names = any (str_eq name) names

-- `len(set(names)) != len(names)`
unfoldable pub repeats : List String → Bool
repeats [] = false
repeats (x ∷ xs) = member x xs || repeats xs

-- The elements of `set(names)`.
unfoldable pub distinct : List String → List String
distinct [] = []
distinct (x ∷ xs) = let rest = distinct xs in if member x xs then rest else x ∷ rest
