-- ===== src/Git.antt =====
-- The commits of a branch and the files that they change: cli/pkg/git/changes.go. What go-git reads
-- from the repository is a parameter.
pub mod Commits
pub mod Files
pub mod Urls
pub mod Prefixes
use becloudless.Prelude.{
  String, ◌≡◌, Bool, true, false, not, ◌&&◌, ◌||◌, Option, none, some, List, [], ◌∷◌, ◌++◌, ◌==◌,
  if◌then◌else◌, contains, Dict, lookup, insert, copy, Outcome, ok, err, ◌>>=◌, or_fail,
}

-- `ChangeType`
pub data ChangeType : Type 0 where
  added : ChangeType
  modified : ChangeType
  deleted : ChangeType
  renamed : ChangeType

-- The two paths of a file patch of go-git, of which a new file has no first and a deleted file no
-- second.
pub record FilePatch : Type 0 where
  pub from : Option String
  pub to : Option String

-- A log iterator of go-git: the hashes that it gives, and whether it ends with an error.
pub record Log : Type 0 where
  pub hashes : List String
  pub fails : Bool

-- The first parent of a commit, which an initial commit does not have.
pub data Parent : Type 0 where
  parent : String → Parent
  no_parent : Parent
  unreadable_parent : Parent

-- HEAD: the short name of a branch, or another reference.
pub data HeadRef : Type 0 where
  on_branch : String → HeadRef
  detached : String → HeadRef

-- What go-git answers. A hash is its text; `diff` is the patch between a tree, the empty one for
-- `none`, and that of a commit.
pub record GoGit : Type 0 where
  pub head : Option HeadRef
  pub branch_ref : String → Option String
  pub remote_ref : String → String → Option String
  pub log : String → Option Log
  pub from_hex : String → Option String
  pub commit_object : String → Option String
  pub first_parent : String → Parent
  pub diff : Option String → String → Option (List FilePatch)

-- The errors, one constructor for each message, with what the message names. The messages that the
-- callers put around them are left out.
pub data GitError : Type 0 where
  no_head : GitError
  head_not_a_branch : String → GitError
  no_branch : String → GitError
  no_log : String → GitError
  log_interrupted : String → GitError
  invalid_hash : String → GitError
  no_commit : String → GitError
  parent_failed : String → GitError
  patch_failed : String → GitError

abbrev pub main_branches : List String
main_branches = "main" ∷ "master" ∷ "origin/main" ∷ "origin/master" ∷ []

-- The path and the change of one file patch; a patch without paths is skipped.
unfoldable pub change_between : Option String → Option String → Option (String × ChangeType)
change_between none none = none
change_between none (some to) = if to == "" then none else some (to, added)
change_between (some from) none = if from == "" then none else some (from, deleted)
change_between (some from) (some to) =
    if to == "" then none else some (to, if from == to then modified else renamed)

abbrev pub change_of : FilePatch → Option (String × ChangeType)
change_of p = change_between p.from p.to

record_change : Option (String × ChangeType) → Dict ChangeType → Dict ChangeType
record_change none files = files
record_change (some (path, ct)) files = insert path ct files

-- `for _, filePatch := range patch.FilePatches()`
unfoldable pub files_of_patches : List FilePatch → Dict ChangeType → Dict ChangeType
unfolding record_change
files_of_patches [] files = files
files_of_patches (p ∷ patches) files = files_of_patches patches (record_change (change_of p) files)

-- The hashes before the first that is in `main`.
unfoldable pub take_until_main : List String → List String → List String
take_until_main main [] = []
take_until_main main (h ∷ hashes) =
    let rest = take_until_main main hashes in if contains main h then [] else h ∷ rest

-- whether the walk meets a hash of `main`
unfoldable pub meets : List String → List String → Bool
meets main [] = false
meets main (h ∷ hashes) = contains main h || meets main hashes

module _ (repo : GoGit) where
  unfoldable pub get_current_branch_name : Outcome GitError String
  get_current_branch_name = elim repo.head [
    | none ↦ err no_head
    | some (on_branch name) ↦ ok name
    | some (detached name) ↦ err (head_not_a_branch name)
  ]

  unfoldable pub is_current_branch_main : Outcome GitError Bool
  unfolding get_current_branch_name
  is_current_branch_main = do branch ← get_current_branch_name; ok (contains main_branches branch)

  unfoldable pub get_branch_last_commit : String → Outcome GitError String
  get_branch_last_commit branch = or_fail (no_branch branch) (repo.branch_ref branch)

  -- the patch of a commit against its first parent, or against the empty tree
  patch_against : String → Parent → Outcome GitError (List FilePatch)
  patch_against commit (parent p) = or_fail (patch_failed commit) (repo.diff (some p) commit)
  patch_against commit no_parent = or_fail (patch_failed commit) (repo.diff none commit)
  patch_against commit unreadable_parent = err (parent_failed commit)

  unfoldable pub get_files_changed_in_commit : String → Outcome GitError (Dict ChangeType)
  unfolding patch_against files_of_patches
  get_files_changed_in_commit commit_hash = do
    hex ← or_fail (invalid_hash commit_hash) (repo.from_hex commit_hash)
    commit ← or_fail (no_commit commit_hash) (repo.commit_object hex)
    patches ← patch_against commit (repo.first_parent commit)
    ok (files_of_patches patches [])

  -- the reference of a name of `mainBranches`
  unfoldable pub main_ref : String → Option String
  main_ref mb =
      if mb == "origin/main"
      then repo.remote_ref "origin" "main"
      else if mb == "origin/master"
      then repo.remote_ref "origin" "master"
      else repo.branch_ref mb

  -- the commits that a reference reaches, up to an error; none for a missing reference
  reachable_from : Option String → List String
  reachable_from none = []
  reachable_from (some hash) = elim (repo.log hash) [ none ↦ [] | some log ↦ log.hashes ]

  unfoldable pub main_reachable : List String → List String
  unfolding reachable_from main_ref
  main_reachable [] = []
  main_reachable (mb ∷ names) = reachable_from (main_ref mb) ++ main_reachable names

  -- the walk over the log of the branch, which fails if the log does before a main commit
  unfoldable pub walk_log : String → List String → Log → Outcome GitError (List String)
  unfolding take_until_main meets
  walk_log branch main log =
      if log.fails && not (meets main log.hashes)
      then err (log_interrupted branch)
      else ok (take_until_main main log.hashes)

  unfoldable pub get_commits_in_branch : String → Outcome GitError (List String)
  unfolding walk_log main_reachable
  get_commits_in_branch branch = do
    ref ← or_fail (no_branch branch) (repo.branch_ref branch)
    log ← or_fail (no_log branch) (repo.log ref)
    walk_log branch (main_reachable main_branches) log

  -- `for _, hash := range commitHashes`
  unfoldable pub changed_in : List String → Dict ChangeType → Outcome GitError (Dict ChangeType)
  unfolding get_files_changed_in_commit
  changed_in [] files = ok files
  changed_in (h ∷ hashes) files = do
    changed ← get_files_changed_in_commit h
    changed_in hashes (copy files changed)

  -- the commits that are looked at: the last one of a main branch, else those of the branch
  unfoldable pub commits_to_analyze : String → Outcome GitError (List String)
  unfolding get_branch_last_commit get_commits_in_branch
  commits_to_analyze branch =
      if contains main_branches branch
      then (do commit ← get_branch_last_commit branch; ok (commit ∷ []))
      else get_commits_in_branch branch

  unfoldable pub get_files_changed_in_current_branch : Outcome GitError (Dict ChangeType)
  unfolding get_current_branch_name commits_to_analyze changed_in
  get_files_changed_in_current_branch = do
    branch ← get_current_branch_name
    hashes ← commits_to_analyze branch
    changed_in hashes []
