-- ===== src/Git/Files.antt =====
-- The files that a commit and a branch change, and the kind of each change.
use becloudless.Prelude.{
  String, ◌≡◌, refl, ◌∙◌, ap, Bool, true, false, ◌&&◌, Option, none, some, List, [], ◌∷◌, ◌==◌,
  if◌then◌else◌, Outcome, ok, err, Bool-cases, Dict, lookup, copy, or_else, lookup-insert,
  lookup-copy, Outcome-cases, inl, inr,
}
use becloudless.Git.{
  GoGit, FilePatch, ChangeType, GitError, change_of, record_change, files_of_patches,
  get_files_changed_in_commit, changed_in, commits_to_analyze, get_current_branch_name,
  get_files_changed_in_current_branch,
}

-- What the patches of a commit do to a file: the last that is about it counts.
abbrev pub is_about : String → Option (String × ChangeType) → Option ChangeType
is_about path none = none
is_about path (some (p, ct)) = if p == path then some ct else none

abbrev pub last_change : String → List FilePatch → Option ChangeType
last_change path [] = none
last_change path (p ∷ patches) = or_else (last_change path patches) (is_about path (change_of p))

lookup-record_change :
    (path : String) (c : Option (String × ChangeType)) (files : Dict ChangeType)
    → lookup path (record_change c files) ≡ or_else (is_about path c) (lookup path files)
unfolding record_change
lookup-record_change path none files = refl
lookup-record_change path (some (p, ct)) files =
    lookup-insert path p ct files
    ∙ elim (Bool-cases (p == path)) [ inl e ↦ rw e refl | inr e ↦ rw e refl ]

or_else_assoc : {A : Type 0} (a b c : Option A) → or_else a (or_else b c) ≡ or_else (or_else a b) c
or_else_assoc none b c = refl
or_else_assoc (some a) b c = refl

lookup-files_of_patches :
    (path : String) (patches : List FilePatch) (files : Dict ChangeType)
    → lookup path (files_of_patches patches files)
      ≡ or_else (last_change path patches) (lookup path files)
unfolding files_of_patches
lookup-files_of_patches path [] files = refl
lookup-files_of_patches path (p ∷ patches) files =
    lookup-files_of_patches path patches (record_change (change_of p) files)
    ∙ ap (or_else (last_change path patches)) (lookup-record_change path (change_of p) files)
    ∙ or_else_assoc (last_change path patches) (is_about path (change_of p)) (lookup path files)

or_else-none : {A : Type 0} (a : Option A) → or_else a none ≡ a
or_else-none none = refl
or_else-none (some a) = refl

abbrev pub succeeds : Outcome GitError (Dict ChangeType) → Bool
succeeds (ok files) = true
succeeds (err e) = false

abbrev pub lookup_in : String → Outcome GitError (Dict ChangeType) → Option ChangeType
lookup_in path (ok files) = lookup path files
lookup_in path (err e) = none

module _ (repo : GoGit) where
  -- What a commit does to a file.
  abbrev pub change_in : String → String → Option ChangeType
  change_in path h = lookup_in path (get_files_changed_in_commit repo h)

  -- What the oldest of the commits, the last in the list, that changes the file does to it.
  abbrev pub oldest_change : String → List String → Option ChangeType
  oldest_change path [] = none
  oldest_change path (h ∷ hashes) = or_else (oldest_change path hashes) (change_in path h)

  abbrev pub is_read : String → Bool
  is_read h = succeeds (get_files_changed_in_commit repo h)

  abbrev pub all_read : List String → Bool
  all_read [] = true
  all_read (h ∷ hashes) = is_read h && all_read hashes

  changed_in-oldest :
      (hashes : List String) (files : Dict ChangeType)
      → all_read hashes ≡ true
      → (out : Dict ChangeType) × (changed_in repo hashes files ≡ ok out)
        × ((path : String)
            → lookup path out ≡ or_else (oldest_change path hashes) (lookup path files))
  unfolding changed_in
  changed_in-oldest [] files h = (files, refl, λ path. refl)
  changed_in-oldest (c ∷ hashes) files h =
      elim (Outcome-cases (get_files_changed_in_commit repo c)) [
        | inl (e, s) ↦ cc (rw s at h)
        | inr (changed, s) ↦
            let (out, t, u) = changed_in-oldest hashes (copy files changed) (rw s at h) in
            rw s (
              out,
              t,
              λ path.
                  u path
                  ∙ ap (or_else (oldest_change path hashes)) (lookup-copy path files changed)
                  ∙ or_else_assoc (oldest_change path hashes) (lookup path changed)
                      (lookup path files),
            )
      ]

  -- When HEAD is on a branch, its commits are found and each of them can be read, the files changed
  -- in the branch are found too: the change of each is that of the oldest of the commits that
  -- touches it, and the file is missing if none does.
  pub get_files_changed_in_current_branch-oldest :
      (branch : String) (hashes : List String)
      → get_current_branch_name repo ≡ ok branch
      → commits_to_analyze repo branch ≡ ok hashes
      → all_read hashes ≡ true
      → (files : Dict ChangeType) × (get_files_changed_in_current_branch repo ≡ ok files)
        × ((path : String) → lookup path files ≡ oldest_change path hashes)
  unfolding get_files_changed_in_current_branch lookup
  get_files_changed_in_current_branch-oldest branch hashes b c r =
      let (out, t, u) = changed_in-oldest hashes [] r in
      rw (b, c) (out, t, λ path. u path ∙ or_else-none (oldest_change path hashes))
