-- ===== src/Versions.antt =====
-- cli/pkg/version/version.go: the next version of a build. The date and the time of the clock, the
-- tags of the repository and the hash of its head are parameters.
pub mod Next
use Prim.Native.Char.{code}
use becloudless.Prelude.{
  ℕ, zero, suc, ◌+◌, ◌-◌, ◌*◌, String, Bool, true, false, ◌&&◌, Option, none, some, List, [], ◌∷◌,
  ◌==◌, ◌&◌, if◌then◌else◌, ltb, leb, eqb, cut_prefix, decimal,
}

-- Go's `int`, on the machines where it has 64 bits
pub data ℤ : Type 0 where
  pos : ℕ → ℤ
  negsuc : ℕ → ℤ

-- the number of values that are not negative
abbrev pub half : ℕ
half = 9223372036854775808

-- `n + 1`, which wraps around at the largest value
abbrev pub succ : ℤ → ℤ
succ (pos n) = if eqb (suc n) half then negsuc (half - 1) else pos (suc n)
succ (negsuc zero) = pos 0
succ (negsuc (suc n)) = negsuc n

-- `m <= n`
abbrev pub is_le : ℤ → ℤ → Bool
is_le (pos m) (pos n) = leb m n
is_le (pos m) (negsuc n) = false
is_le (negsuc m) (pos n) = true
is_le (negsuc m) (negsuc n) = leb n m

abbrev pub is_digit : ℕ → Bool
is_digit n = leb 48 n && leb n 57

unfoldable pub digits_value : ℕ → String → Option ℕ
digits_value value String.[] = some value
digits_value value (String.◌∷◌ c s) =
    let rest = digits_value (10 * value + (code c - 48)) s in
    if is_digit (code c) then rest else none

abbrev pub in_range : Option ℕ → Option ℤ
in_range none = none
in_range (some n) = if ltb n half then some (pos n) else none

abbrev pub negated : Option ℕ → Option ℤ
negated none = none
negated (some zero) = some (pos 0)
negated (some (suc n)) = if ltb n half then some (negsuc n) else none

abbrev pub unsigned : String → Option ℕ
unsigned s = if s == "" then none else digits_value 0 s

-- `strconv.Atoi(s)`
unfoldable pub atoi : String → Option ℤ
unfolding digits_value
atoi String.[] = none
atoi (String.◌∷◌ c s) =
    if eqb (code c) 45
    then negated (unsigned s)
    else if eqb (code c) 43
    then in_range (unsigned s)
    else in_range (unsigned (String.◌∷◌ c s))

-- `%d`
unfoldable pub itoa : ℤ → String
unfolding decimal
itoa (pos n) = decimal n
itoa (negsuc n) = "-" & decimal (suc n)

-- the number of a tag with the prefix
unfoldable pub bugfix_of : String → String → Option ℤ
unfolding atoi cut_prefix
bugfix_of prefix tag = elim (cut_prefix tag prefix) [ none ↦ none | some bugfix ↦ atoi bugfix ]

abbrev pub raised : ℤ → Option ℤ → ℤ
raised next none = next
raised next (some n) = if is_le next n then succ n else next

-- the loop over the tags
unfoldable pub next_bugfix : String → List String → ℤ → ℤ
unfolding bugfix_of
next_bugfix prefix [] next = next
next_bugfix prefix (tag ∷ tags) next = next_bugfix prefix tags (raised next (bugfix_of prefix tag))

abbrev pub tag_prefix : ℤ → String → String
unfolding itoa
tag_prefix major date = "v" & (itoa major & ("." & (date & ".")))

-- `GenerateIncrementalVersion`, where the tags are missing if the repository cannot list them
unfoldable pub generate_incremental_version : ℤ → String → Option (List String) → Option String
unfolding next_bugfix itoa
generate_incremental_version major date none = none
generate_incremental_version major date (some tags) =
    some (
      itoa major & ("." & (date & ("." & itoa (next_bugfix (tag_prefix major date) tags (pos 0))))))

abbrev pub with_suffix : String → String → String
with_suffix version suffix = if suffix == "" then version else version & ("-" & suffix)

-- `GenerateVersionWithSuffix`, of the date as YYMMDD and the time as HHMM; a time that is no number
-- ends the program
unfoldable pub generate_version_with_suffix : String → String → ℤ → String → Option String
unfolding atoi itoa
generate_version_with_suffix date time major suffix = elim (atoi time) [
  | none ↦ none
  | some number ↦ some (with_suffix (itoa major & ("." & (date & ("." & itoa number)))) suffix)
]

-- `GenerateVersion`
unfoldable pub generate_version : String → String → ℤ → Option String
unfolding generate_version_with_suffix
generate_version date time major = generate_version_with_suffix date time major ""

-- `GenerateVersionFromDateAndGitState`, of the hash of the head if there is one
unfoldable pub generate_version_from_date_and_git_state :
    String → String → ℤ → Option String → Option String
unfolding generate_version_with_suffix
generate_version_from_date_and_git_state date time major none = none
generate_version_from_date_and_git_state date time major (some hash) =
    generate_version_with_suffix date time major ("H" & hash)
