-- ===== src/Prelude/Strings.antt =====
-- What the code uses of Go's `strings`, `sort` and `fmt` packages.
use Prim.Native.Nat.{ℕ, ◌/◌, ◌%◌}
use Prim.Native.Char.{Char, code}
use Prim.Native.String.{String, compare}
use mathlib.Core.Bool.{Bool, false, ◌||◌}
use mathlib.Core.List.{List, [], ◌∷◌}
use mathlib.Core.Option.{Option, none, some}
use text.Mathlib.Text.{◌==◌, is_le}
use becloudless.Prelude.Tests.{if◌then◌else◌, ltb, eqb}
use becloudless.Prelude.Text.{◌&◌}

-- `strings.Join(list, sep)`
unfoldable pub join : String → List String → String
join sep [] = ""
join sep (s ∷ []) = s
join sep (s ∷ t ∷ list) = s & sep & join sep (t ∷ list)

-- `strings.HasSuffix(s, suffix)`
unfoldable pub has_suffix : String → String → Bool
has_suffix String.[] suffix = suffix == ""
has_suffix (String.◌∷◌ c s) suffix = String.◌∷◌ c s == suffix || has_suffix s suffix

-- `slices.Contains(list, s)`
unfoldable pub contains : List String → String → Bool
contains [] s = false
contains (item ∷ list) s = item == s || contains list s

-- `sort.Strings`: in the order of the code points, which is the order of the bytes of UTF-8
unfoldable pub insert_sorted : String → List String → List String
insert_sorted s [] = s ∷ []
insert_sorted s (t ∷ list) = if is_le (compare s t) then s ∷ t ∷ list else t ∷ insert_sorted s list

unfoldable pub sort_strings : List String → List String
unfolding insert_sorted
sort_strings [] = []
sort_strings (s ∷ list) = insert_sorted s (sort_strings list)

hex_digit : ℕ → String
hex_digit n =
    if eqb n 0
    then "0"
    else if eqb n 1
    then "1"
    else if eqb n 2
    then "2"
    else if eqb n 3
    then "3"
    else if eqb n 4
    then "4"
    else if eqb n 5
    then "5"
    else if eqb n 6
    then "6"
    else if eqb n 7
    then "7"
    else if eqb n 8
    then "8"
    else if eqb n 9
    then "9"
    else if eqb n 10
    then "a"
    else if eqb n 11
    then "b"
    else if eqb n 12
    then "c"
    else if eqb n 13
    then "d"
    else if eqb n 14
    then "e"
    else "f"

-- A character of a text under `%q`. A character above the ASCII ones stands for itself, as Go
-- writes the printable ones.
quote_char : Char → String
unfolding hex_digit
quote_char c =
    let n = code c in
    if eqb n 34
    then "\\\""
    else if eqb n 92
    then "\\\\"
    else if eqb n 7
    then "\\a"
    else if eqb n 8
    then "\\b"
    else if eqb n 12
    then "\\f"
    else if eqb n 10
    then "\\n"
    else if eqb n 13
    then "\\r"
    else if eqb n 9
    then "\\t"
    else if eqb n 11
    then "\\v"
    else if ltb n 32 || eqb n 127
    then "\\x" & hex_digit (n / 16) & hex_digit (n % 16)
    else String.◌∷◌ c ""

quote_chars : String → String
unfolding quote_char
quote_chars String.[] = ""
quote_chars (String.◌∷◌ c s) = quote_char c & quote_chars s

-- `fmt.Sprintf("%q", s)`
unfoldable pub quote : String → String
unfolding quote_chars
quote s = "\"" & quote_chars s & "\""

-- `strings.CutPrefix(s, prefix)`
unfoldable pub cut_prefix : String → String → Option String
cut_prefix s String.[] = some s
cut_prefix String.[] (String.◌∷◌ d prefix) = none
cut_prefix (String.◌∷◌ c s) (String.◌∷◌ d prefix) =
    let rest = cut_prefix s prefix in if eqb (code c) (code d) then rest else none

-- `strings.Split(s, sep)` for a separator of one character
unfoldable pub split_on : Char → String → List String
split_on sep String.[] = "" ∷ []
split_on sep (String.◌∷◌ c s) =
    let rest = split_on sep s in if eqb (code c) (code sep) then "" ∷ rest else first_with c rest
  where
    first_with : Char → List String → List String
    first_with c [] = String.◌∷◌ c "" ∷ []
    first_with c (s ∷ list) = String.◌∷◌ c s ∷ list
