-- ===== src/Git/Prefixes.antt =====
-- The command of cli/pkg/cmd/ci/ciChanges.go: whether files under some path prefixes changed. The
-- environment and the file that the output is appended to are parameters.
use becloudless.Prelude.{
  String, Bool, false, ◌&◌, ◌==◌, ◌||◌, Option, some, none, List, [], ◌∷◌, ◌++◌, if◌then◌else◌,
  Dict, Outcome, ok, err, has_prefix, split_on, trim_space,
}
use becloudless.Git.{GoGit, GitError, ChangeType, get_files_changed_in_current_branch}

pub data ChangesError : Type 0 where
  no_prefix : ChangesError
  no_repository : ChangesError
  changes_failed : GitError → ChangesError
  output_failed : String → ChangesError

-- the lines of an argument that are not empty, trimmed
unfoldable pub prefixes_in : List String → List String
unfolding trim_space
prefixes_in [] = []
prefixes_in (line ∷ lines) =
    let rest = prefixes_in lines in if trim_space line == "" then rest else trim_space line ∷ rest

unfoldable pub prefixes_of : List String → List String
unfolding prefixes_in split_on
prefixes_of [] = []
prefixes_of (arg ∷ args) = prefixes_in (split_on "\n" arg) ++ prefixes_of args

unfoldable pub has_any_prefix : String → List String → Bool
unfolding has_prefix
has_any_prefix file [] = false
has_any_prefix file (prefix ∷ prefixes) = has_prefix file prefix || has_any_prefix file prefixes

-- the loops over the changes, in the order that the map gives them
unfoldable pub is_changed : Dict ChangeType → List String → Bool
unfolding has_any_prefix
is_changed [] prefixes = false
is_changed ((file, change) ∷ changes) prefixes =
    has_any_prefix file prefixes || is_changed changes prefixes

abbrev pub changes_output : Bool → String
changes_output changed = if changed then "changed=true" else "changed=false"

-- What is printed, and what is appended to which file.
pub record ChangesRun : Type 0 where
  pub printed : String
  pub appended : Option (String × String)

module _ (output_file : String) (writable : String → Bool) where
  abbrev pub write_output : String → Outcome ChangesError ChangesRun
  write_output output =
      if output_file == ""
      then ok (record { printed = output; appended = none })
      else if writable output_file
      then ok (record { printed = output; appended = some (output_file, output & "\n") })
      else err (output_failed output_file)

  abbrev pub changes_with :
      List String → Outcome GitError (Dict ChangeType) → Outcome ChangesError ChangesRun
  changes_with prefixes (err e) = err (changes_failed e)
  changes_with prefixes (ok changes) = write_output (changes_output (is_changed changes prefixes))

  abbrev pub changes_in : Option GoGit → List String → Outcome ChangesError ChangesRun
  changes_in repo [] = err no_prefix
  changes_in none prefixes = err no_repository
  changes_in (some repo) prefixes = changes_with prefixes (get_files_changed_in_current_branch repo)

  -- `CiChangesCmd`
  unfoldable pub ci_changes : Option GoGit → List String → Outcome ChangesError ChangesRun
  unfolding prefixes_of is_changed
  ci_changes repo args = changes_in repo (prefixes_of args)
