-- ===== src/Base/Text.antt =====
-- Python's `str` methods that the program calls, for texts in ASCII, and the truth value of an
-- optional text.
use Prim.Native.Nat.{◌-◌}
use Prim.Native.Char.{Char, code}
use Prim.Native.String.{String, char_at}
use mathlib.Core.Bool.{Bool, true, false, not, ◌&&◌, ◌||◌}
use mathlib.Core.Option.{Option, none, some}
use mathlib.Core.List.{List}
use text.Mathlib.Text.{◌==◌ as str_eq}
use tron_shkeeper.Base.Tests.{leb, ◌==◌, if◌then◌else◌}

infix 50 ◌=s◌
abbrev pub ◌=s◌ : String → String → Bool
s =s t = str_eq s t

-- `s in (…)`
abbrev pub contains : String → List String → Bool
contains s List.[] = false
contains s (List.◌∷◌ t ts) = s =s t || contains s ts

upper_char : Char → Char
upper_char c =
    if leb b'a' (code c) && leb (code c) b'z'
    then char_at "ABCDEFGHIJKLMNOPQRSTUVWXYZ" (code c - b'a')
    else c

lower_char : Char → Char
lower_char c =
    if leb b'A' (code c) && leb (code c) b'Z'
    then char_at "abcdefghijklmnopqrstuvwxyz" (code c - b'A')
    else c

-- `s.upper()`
unfoldable pub upper : String → String
unfolding upper_char
upper String.[] = String.[]
upper (String.◌∷◌ c s) = String.◌∷◌ (upper_char c) (upper s)

-- `s.lower()`
unfoldable pub lower : String → String
unfolding lower_char
lower String.[] = String.[]
lower (String.◌∷◌ c s) = String.◌∷◌ (lower_char c) (lower s)

is_space : Char → Bool
is_space c = code c == 32 || (leb 9 (code c) && leb (code c) 13)

-- `s.strip()`: the spaces before and behind are dropped. `strip_right` keeps a space only if
-- something else follows it.
strip_right : String → String
strip_right String.[] = String.[]
strip_right (String.◌∷◌ c s) =
    let rest = strip_right s in if is_space c && rest =s "" then String.[] else String.◌∷◌ c rest

strip_left : String → String
strip_left String.[] = String.[]
strip_left (String.◌∷◌ c s) = if is_space c then strip_left s else String.◌∷◌ c s

unfoldable pub strip : String → String
unfolding is_space strip_right strip_left
strip s = strip_right (strip_left s)

-- `bool(row[field])` of a nullable text column
abbrev pub truthy : Option String → Bool
truthy none = false
truthy (some s) = not (s =s "")

-- `a or b` with a text on the right
abbrev pub or_else : Option String → String → String
or_else none t = t
or_else (some s) t = if s =s "" then t else s

-- `x in (None, t)`
abbrev pub absent_or : Option String → String → Bool
absent_or none t = true
absent_or (some s) t = s =s t
