-- ===== src/Prelude/Text.antt =====
-- Python's `str` operations that the program uses.
use Prim.Native.Nat.{ℕ, suc}
use Prim.Native.Char.{code}
use Prim.Native.String.{String, [], ◌∷◌}
use mathlib.Core.Bool.{Bool, false, ◌&&◌, ◌||◌}
use mathlib.Core.Path.{◌≡◌, refl}
use text.Mathlib.Text.{◌==◌, starts_with as text_starts_with}
use claim_ci.Prelude.Tests.{◌==◌ as same_number, leb, if◌then◌else◌}

-- `s == t`
abbrev pub str_eq : String → String → Bool
str_eq s t = s == t

-- `s.startswith(t)`
abbrev pub starts_with : String → String → Bool
starts_with s t = text_starts_with s t

-- `str.isspace` of one character, by its code point
pub is_space : ℕ → Bool
is_space c =
    (leb 9 c && leb c 13)
    || (leb 28 c && leb c 32)
    || same_number c 0x85
    || same_number c 0xa0
    || same_number c 0x1680
    || (leb 0x2000 c && leb c 0x200a)
    || same_number c 0x2028
    || same_number c 0x2029
    || same_number c 0x202f
    || same_number c 0x205f
    || same_number c 0x3000

strip_left : String → String
unfolding is_space
strip_left [] = []
strip_left (c ∷ s) = if is_space (code c) then strip_left s else c ∷ s

strip_right : String → String
unfolding is_space
strip_right [] = []
strip_right (c ∷ s) =
    let rest = strip_right s in if str_eq rest "" && is_space (code c) then [] else c ∷ rest

-- `s.strip()`
unfoldable pub strip : String → String
unfolding strip_left strip_right
strip s = strip_right (strip_left s)

strip_blanks : strip " higher\n" ≡ "higher"
unfolding strip
strip_blanks = refl

-- `len(s)`
abbrev pub str_length : String → ℕ
str_length [] = 0
str_length (c ∷ s) = suc (str_length s)

-- `any(p(ord(character)) for character in s)`
abbrev pub any_code : (ℕ → Bool) → String → Bool
any_code p [] = false
any_code p (c ∷ s) = p (code c) || any_code p s

-- A test of the first character.
abbrev pub first_code : (ℕ → Bool) → String → Bool
first_code p [] = false
first_code p (c ∷ s) = p (code c)
