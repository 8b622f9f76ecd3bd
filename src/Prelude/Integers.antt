-- ===== src/Prelude/Integers.antt =====
-- Integers over the native numbers, and `parseInt`.
use Prim.Native.Nat.{ℕ, zero, suc, ◌+◌, ◌-◌, ◌*◌, ◌/◌, ◌%◌}
use Prim.Native.Char.{code}
use Prim.Native.String.{String, [], ◌∷◌, ◌++◌ as concat}
use mathlib.Core.Path.{◌≡◌, refl}
use mathlib.Core.Bool.{◌&&◌, ◌||◌}
use mathlib.Core.Option.{Option, none, some}
use omni_mission_control.Prelude.Tests.{leb, ltb, ◌==◌, if◌then◌else◌}
use omni_mission_control.Prelude.Texts.{trim_start}

pub data ℤ : Type 0 where
  pos : ℕ → ℤ
  negsuc : ℕ → ℤ

abbrev pub negated : ℕ → ℤ
negated zero = pos 0
negated (suc n) = negsuc n

-- The value of a digit of a radix up to 16.
unfoldable pub digit : ℕ → ℕ → Option ℕ
digit radix c =
    if leb 48 c && leb c 57
    then some (c - 48)
    else if leb 97 c && ltb c (87 + radix)
    then some (c - 87)
    else if leb 65 c && ltb c (55 + radix)
    then some (c - 55)
    else none

-- The longest run of digits, after the number read so far.
unfoldable pub digits : ℕ → Option ℕ → String → Option ℕ
unfolding digit
digits radix acc [] = acc
digits radix acc (c ∷ s) = elim (digit radix (code c)) [
  | none ↦ acc
  | some d ↦ digits radix (some (elim acc [ none ↦ d | some n ↦ n * radix + d ])) s
]

-- `0x` before the digits makes them hexadecimal.
unfoldable pub after_zero : String → Option ℕ
unfolding digits
after_zero [] = some 0
after_zero (c ∷ s) =
    let hex = digits 16 none s in
    let dec = digits 10 (some 0) (c ∷ s) in if code c == 120 || code c == 88 then hex else dec

unfoldable pub magnitude : String → Option ℕ
unfolding after_zero
magnitude [] = none
magnitude (c ∷ s) =
    let zeroed = after_zero s in
    let dec = digits 10 none (c ∷ s) in if code c == 48 then zeroed else dec

abbrev pub as_pos : Option ℕ → Option ℤ
as_pos none = none
as_pos (some n) = some (pos n)

abbrev pub as_negated : Option ℕ → Option ℤ
as_negated none = none
as_negated (some n) = some (negated n)

unfoldable pub signed : String → Option ℤ
unfolding magnitude
signed [] = none
signed (c ∷ s) =
    let minus = as_negated (magnitude s) in
    let plus = as_pos (magnitude s) in
    let bare = as_pos (magnitude (c ∷ s)) in
    if code c == 45 then minus else if code c == 43 then plus else bare

-- `parseInt(s)`; `none` is `NaN`.
unfoldable pub parse_int : String → Option ℤ
unfolding signed trim_start
parse_int s = signed (trim_start s)

-- One decimal digit.
unfoldable pub digit_text : ℕ → String
digit_text n =
    if n == 0
    then "0"
    else if n == 1
    then "1"
    else if n == 2
    then "2"
    else if n == 3
    then "3"
    else if n == 4
    then "4"
    else if n == 5
    then "5"
    else if n == 6
    then "6"
    else if n == 7
    then "7"
    else if n == 8
    then "8"
    else "9"

-- A number below `10 ^ fuel` in decimal.
unfoldable pub decimal_from : ℕ → ℕ → String
unfolding digit_text
decimal_from zero n = ""
decimal_from (suc fuel) n =
    let rest = decimal_from fuel (n / 10) in
    if ltb n 10 then digit_text n else concat rest (digit_text (n % 10))

-- `String(n)`; a number is below 10 to the power of itself plus one.
unfoldable pub decimal : ℕ → String
unfolding decimal_from
decimal n = decimal_from (suc n) n

unfoldable pub decimal_int : ℤ → String
unfolding decimal
decimal_int (pos n) = decimal n
decimal_int (negsuc n) = concat "-" (decimal (suc n))

decimal_runs : decimal 1_905 ≡ "1905"
unfolding decimal
decimal_runs = refl

parse_int_runs : parse_int "  42 days" ≡ some (pos 42)
unfolding parse_int
parse_int_runs = refl

parse_int_hex : parse_int "-0x1F" ≡ some (negsuc 30)
unfolding parse_int
parse_int_hex = refl

parse_int_nan : parse_int "idle" ≡ none
unfolding parse_int
parse_int_nan = refl
