-- ===== src/Dataset/Lines.antt =====
-- `text.split("\n")`, and the test for a blank line.
use Prim.Native.Char.{Char, code}
use claim_ci.Prelude.{◌≡◌, refl, Bool, List, [], ◌∷◌, String, str_eq, strip, ◌==◌, if◌then◌else◌}

-- One character before the first of the lines.
push : Char → List String → List String
push c [] = (String.◌∷◌ c String.[]) ∷ []
push c (line ∷ lines) = (String.◌∷◌ c line) ∷ lines

unfoldable pub split_lines : String → List String
unfolding push
split_lines String.[] = "" ∷ []
split_lines (String.◌∷◌ c s) =
    let rest = split_lines s in if code c == 10 then "" ∷ rest else push c rest

-- `not line.strip()`
unfoldable pub is_blank : String → Bool
unfolding strip
is_blank line = str_eq (strip line) ""

three_lines : split_lines "a\r\n\nb" ≡ "a\r" ∷ "" ∷ "b" ∷ []
unfolding split_lines
three_lines = refl
