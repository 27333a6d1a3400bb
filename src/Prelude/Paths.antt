-- ===== src/Prelude/Paths.antt =====
-- Go's `path/filepath` on Unix: the elements of a path and its shortest equivalent.
use Prim.Native.String.{String}
use mathlib.Core.Bool.{Bool, true, false, ◌||◌}
use mathlib.Core.Option.{none, some}
use mathlib.Core.List.{List, [], ◌∷◌}
use text.Mathlib.Text.{◌==◌}
use becloudless.Prelude.Tests.{if◌then◌else◌}
use becloudless.Prelude.Text.{◌&◌}
use becloudless.Prelude.Strings.{join, cut_prefix, split_on}

-- a `..` after the elements so far, the last one first
unfoldable pub leave : Bool → List String → List String
leave true [] = []
leave false [] = ".." ∷ []
leave rooted (last ∷ parts) = if last == ".." then ".." ∷ last ∷ parts else parts

unfoldable pub clean_parts : Bool → List String → List String → List String
unfolding leave
clean_parts rooted parts [] = parts
clean_parts rooted parts (e ∷ list) =
    clean_parts rooted
      (if e == "" || e == "." then parts else if e == ".." then leave rooted parts else e ∷ parts)
      list

pub reversed : List String → List String → List String
reversed [] out = out
reversed (s ∷ list) out = reversed list (s ∷ out)

abbrev pub is_rooted : String → Bool
is_rooted p = elim (cut_prefix p "/") [ none ↦ false | some rest ↦ true ]

clean_body : Bool → String → String
unfolding clean_parts reversed split_on
clean_body rooted p = join "/" (reversed (clean_parts rooted [] (split_on "/" p)) [])

-- `filepath.Clean(p)`
unfoldable pub clean : String → String
unfolding clean_body cut_prefix
clean p =
    if is_rooted p
    then "/" & clean_body true p
    else if clean_body false p == ""
    then "."
    else clean_body false p

-- `filepath.Join(a, b)`
unfoldable pub join_path : String → String → String
unfolding clean
join_path a b =
    if b == ""
    then if a == "" then "" else clean a
    else if a == ""
    then clean b
    else clean (a & "/" & b)
