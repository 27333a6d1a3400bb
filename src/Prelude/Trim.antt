-- ===== src/Prelude/Trim.antt =====
-- Go's trimming functions of `strings`, `%03d`, and splitting at line ends.
use Prim.Native.Nat.{ℕ, zero, suc, ◌/◌, ◌%◌}
use Prim.Native.Char.{Char, code}
use Prim.Native.String.{String}
use mathlib.Core.Bool.{Bool, true, false, ◌||◌, ◌&&◌}
use mathlib.Core.Option.{none, some}
use text.Mathlib.Text.{◌==◌}
use becloudless.Prelude.Tests.{if◌then◌else◌, ltb, leb, eqb}
use becloudless.Prelude.Text.{◌&◌}
use becloudless.Prelude.Strings.{cut_prefix}

-- `strings.HasPrefix(s, prefix)`
unfoldable pub has_prefix : String → String → Bool
unfolding cut_prefix
has_prefix s prefix = elim (cut_prefix s prefix) [ none ↦ false | some rest ↦ true ]

-- `strings.TrimPrefix(s, prefix)`
unfoldable pub trim_prefix : String → String → String
unfolding cut_prefix
trim_prefix s prefix = elim (cut_prefix s prefix) [ none ↦ s | some rest ↦ rest ]

-- `strings.TrimSuffix(s, suffix)` for a suffix that is not empty
unfoldable pub trim_suffix : String → String → String
trim_suffix String.[] suffix = String.[]
trim_suffix (String.◌∷◌ c s) suffix =
    let rest = trim_suffix s suffix in if String.◌∷◌ c s == suffix then "" else String.◌∷◌ c rest

unfoldable pub trim_left : (Char → Bool) → String → String
trim_left test String.[] = String.[]
trim_left test (String.◌∷◌ c s) =
    let rest = trim_left test s in if test c then rest else String.◌∷◌ c s

unfoldable pub trim_right : (Char → Bool) → String → String
trim_right test String.[] = String.[]
trim_right test (String.◌∷◌ c s) =
    let rest = trim_right test s in if test c && rest == "" then "" else String.◌∷◌ c rest

-- `strings.Trim(s, cutset)` for a test in place of the set
unfoldable pub trim : (Char → Bool) → String → String
unfolding trim_left trim_right
trim test s = trim_left test (trim_right test s)

abbrev pub is_slash : Char → Bool
is_slash c = eqb (code c) 47

-- the white space of Latin-1
abbrev pub is_space : Char → Bool
is_space c = let n = code c in leb 9 n && leb n 13 || eqb n 32 || eqb n 133 || eqb n 160

-- `strings.TrimSpace(s)`
unfoldable pub trim_space : String → String
unfolding trim
trim_space s = trim is_space s

digit : ℕ → String
digit n =
    if eqb n 0
    then "0"
    else if eqb n 1
    then "1"
    else if eqb n 2
    then "2"
    else if eqb n 3
    then "3"
    else if eqb n 4
    then "4"
    else if eqb n 5
    then "5"
    else if eqb n 6
    then "6"
    else if eqb n 7
    then "7"
    else if eqb n 8
    then "8"
    else "9"

decimal_fuel : ℕ → ℕ → String
unfolding digit
decimal_fuel zero n = ""
decimal_fuel (suc fuel) n = elim (ltb n 10) [
  | true ↦ digit n
  | false ↦ decimal_fuel fuel (n / 10) & digit (n % 10)
]

-- `strconv.Itoa(n)`
unfoldable pub decimal : ℕ → String
unfolding decimal_fuel
decimal n = decimal_fuel (suc n) n

-- `fmt.Sprintf("%03d", n)`
unfoldable pub three_digits : ℕ → String
unfolding decimal
three_digits n =
    if ltb n 10 then "00" & decimal n else if ltb n 100 then "0" & decimal n else decimal n
