-- ===== src/Prelude/Texts.antt =====
-- What the program uses of JavaScript's strings, over the native `String`.
use Prim.Native.Nat.{ℕ, zero, suc, ◌+◌, ◌-◌}
use Prim.Native.Char.{Char, code}
use Prim.Native.String.{String, [], ◌∷◌}
use mathlib.Core.Bool.{Bool, true, false, ◌&&◌, ◌||◌}
use mathlib.Core.List.{List}
use mathlib.Core.Option.{Option, none, some}
use text.Mathlib.Text.{◌==◌ as str_eq}
use omni_mission_control.Prelude.Tests.{leb, ◌==◌, if◌then◌else◌}

-- The white space and line terminators that `trim` removes.
unfoldable pub is_space : ℕ → Bool
is_space c =
    leb 9 c && leb c 13
    || c == 32
    || c == 0xa0
    || c == 0x1680
    || leb 0x2000 c && leb c 0x200a
    || c == 0x2028
    || c == 0x2029
    || c == 0x202f
    || c == 0x205f
    || c == 0x3000
    || c == 0xfeff

abbrev pub is_empty : String → Bool
is_empty [] = true
is_empty (c ∷ s) = false

unfoldable pub trim_start : String → String
unfolding is_space
trim_start [] = ""
trim_start (c ∷ s) = if is_space (code c) then trim_start s else c ∷ s

unfoldable pub trim_end : String → String
unfolding is_space
trim_end [] = ""
trim_end (c ∷ s) =
    let rest = trim_end s in if is_space (code c) && is_empty rest then "" else c ∷ rest

unfoldable pub trim : String → String
unfolding trim_start trim_end
trim s = trim_end (trim_start s)

-- The first piece grows by a character.
unfoldable pub extend : Char → List String → List String
extend c List.[] = List.◌∷◌ (c ∷ "") List.[]
extend c (List.◌∷◌ piece pieces) = List.◌∷◌ (c ∷ piece) pieces

-- `s.split(',')`, for any one-character separator.
unfoldable pub split : ℕ → String → List String
unfolding extend
split sep [] = List.◌∷◌ "" List.[]
split sep (c ∷ s) =
    let pieces = split sep s in if code c == sep then List.◌∷◌ "" pieces else extend c pieces

-- `s.length`, in UTF-16 code units.
unfoldable pub js_length : String → ℕ
js_length [] = 0
js_length (c ∷ s) = (if leb (code c) 0xffff then 1 else 2) + js_length s

-- A string that is present and not empty: the truthy ones.
abbrev pub truthy : Option String → Option String
truthy none = none
truthy (some []) = none
truthy (some (c ∷ s)) = some (c ∷ s)

-- `o || d` on strings
abbrev pub str_or : Option String → String → String
str_or none d = d
str_or (some []) d = d
str_or (some (c ∷ s)) d = c ∷ s

-- `s.startsWith(prefix)`
unfoldable pub starts_with : String → String → Bool
starts_with [] s = true
starts_with (p ∷ ps) [] = false
starts_with (p ∷ ps) (c ∷ s) = code p == code c && starts_with ps s

-- `s.endsWith(suffix)`
unfoldable pub ends_with : String → String → Bool
ends_with suffix [] = is_empty suffix
ends_with suffix (c ∷ s) = str_eq suffix (c ∷ s) || ends_with suffix s

-- `s.includes(part)`
unfoldable pub includes : String → String → Bool
unfolding starts_with
includes part [] = is_empty part
includes part (c ∷ s) = starts_with part (c ∷ s) || includes part s

-- The character at a place of a text.
abbrev pub char_or : Char → ℕ → String → Char
char_or c n [] = c
char_or c zero (d ∷ s) = d
char_or c (suc n) (d ∷ s) = char_or c n s

-- `s.toLowerCase()` and `s.toUpperCase()` on the letters of ASCII; other characters stay.
unfoldable pub to_lower : String → String
to_lower [] = ""
to_lower (c ∷ s) =
    (if leb 65 (code c) && leb (code c) 90
      then char_or c (code c - 65) "abcdefghijklmnopqrstuvwxyz"
      else c)
    ∷ to_lower s

unfoldable pub to_upper : String → String
to_upper [] = ""
to_upper (c ∷ s) =
    (if leb 97 (code c) && leb (code c) 122
      then char_or c (code c - 97) "ABCDEFGHIJKLMNOPQRSTUVWXYZ"
      else c)
    ∷ to_upper s

-- The text without its last character.
unfoldable pub but_last : String → String
but_last [] = ""
but_last (c ∷ s) = let rest = but_last s in if is_empty s then "" else c ∷ rest

-- The first of the pieces that `split` gives, of which there is always one.
unfoldable pub before_sep : ℕ → String → String
before_sep sep [] = ""
before_sep sep (c ∷ s) = let rest = before_sep sep s in if code c == sep then "" else c ∷ rest
