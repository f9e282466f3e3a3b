-- ===== src/Prelude/Text.antt =====
-- Python's `str` as a native text: its length and its prefixes count characters.
use Prim.Native.Nat.{ℕ, zero, suc, min}
use Prim.Native.Char.{Char, code}
use Prim.Native.String.{String}
use mathlib.Core.Bool.{Bool, false, ◌||◌, ◌&&◌}
use mathlib.Core.Option.{Option, none, some}
use mathlib.Core.List.{List, [], ◌∷◌}
use text.Mathlib.Text.{◌==◌ as str_eq}
use rdpflux.Prelude.Tests.{◌==◌, if◌then◌else◌}
use mathlib.Core.Path.{◌≡◌}
use native.Mathlib.Omega.{arith}

-- `len(s)`
unfoldable pub chars : String → ℕ
chars String.[] = 0
chars (String.◌∷◌ c s) = suc (chars s)

-- `s[:n]`
unfoldable pub take_chars : ℕ → String → String
take_chars zero s = String.[]
take_chars (suc n) String.[] = String.[]
take_chars (suc n) (String.◌∷◌ c s) = String.◌∷◌ c (take_chars n s)

pub chars-take_chars : (n : ℕ) (s : String) → chars (take_chars n s) ≡ min n (chars s)
unfolding chars take_chars
chars-take_chars zero s = omega arith
chars-take_chars (suc n) String.[] = omega arith
chars-take_chars (suc n) (String.◌∷◌ c s) = omega (arith, chars-take_chars n s)

-- `s.split(c)`, for a character given by its code point.
abbrev to_first : Char → List String → List String
to_first c [] = String.◌∷◌ c "" ∷ []
to_first c (part ∷ parts) = String.◌∷◌ c part ∷ parts

unfoldable pub split_at : ℕ → String → List String
split_at sep String.[] = "" ∷ []
split_at sep (String.◌∷◌ c s) =
    let parts = split_at sep s in if code c == sep then "" ∷ parts else to_first c parts

-- `s.replace(c, "")`
unfoldable pub without : ℕ → String → String
without sep String.[] = ""
without sep (String.◌∷◌ c s) =
    let rest = without sep s in if code c == sep then rest else String.◌∷◌ c rest

-- The code points of a text.
unfoldable pub codes : String → List ℕ
codes String.[] = []
codes (String.◌∷◌ c s) = code c ∷ codes s

-- `text in texts`
unfoldable pub has_text : String → List String → Bool
has_text k [] = false
has_text k (j ∷ js) = str_eq j k || has_text k js

-- The parts around the first, and around the last, of a character; `none` where it does not occur.
abbrev pub before_more : Char → Option (String × String) → Option (String × String)
before_more c none = none
before_more c (some (before, after)) = some (String.◌∷◌ c before, after)

unfoldable pub split_first : ℕ → String → Option (String × String)
split_first sep String.[] = none
split_first sep (String.◌∷◌ c s) =
    let later = split_first sep s in if code c == sep then some ("", s) else before_more c later

abbrev pub or_here : ℕ → Char → String → Option (String × String) → Option (String × String)
or_here sep c s (some (before, after)) = some (String.◌∷◌ c before, after)
or_here sep c s none = if code c == sep then some ("", s) else none

unfoldable pub split_last : ℕ → String → Option (String × String)
split_last sep String.[] = none
split_last sep (String.◌∷◌ c s) = or_here sep c s (split_last sep s)

-- `s[1:]` where `s` starts with the character.
unfoldable pub behind : ℕ → String → Option String
behind sep String.[] = none
behind sep (String.◌∷◌ c s) = if code c == sep then some s else none

-- `c in s`
unfoldable pub has_char : ℕ → String → Bool
has_char k String.[] = false
has_char k (String.◌∷◌ c s) = (code c == k) || has_char k s

-- `s + t`
unfoldable pub glue : String → String → String
glue String.[] t = t
glue (String.◌∷◌ c s) t = String.◌∷◌ c (glue s t)

-- `s.lstrip(marks)`, `s.rstrip(marks)` and `s.strip(marks)`, for the code points of `marks`.
unfoldable pub has_number : ℕ → List ℕ → Bool
has_number k [] = false
has_number k (j ∷ js) = (k == j) || has_number k js

unfoldable pub trim_left : List ℕ → String → String
trim_left marks String.[] = ""
trim_left marks (String.◌∷◌ c s) =
    let rest = trim_left marks s in if has_number (code c) marks then rest else String.◌∷◌ c s

unfoldable pub trim_right : List ℕ → String → String
trim_right marks String.[] = ""
trim_right marks (String.◌∷◌ c s) =
    let rest = trim_right marks s in
    if has_number (code c) marks && (chars rest == 0) then "" else String.◌∷◌ c rest

unfoldable pub trim : List ℕ → String → String
trim marks s = trim_left marks (trim_right marks s)
