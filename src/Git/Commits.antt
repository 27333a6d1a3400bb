-- ===== src/Git/Commits.antt =====
-- Which commits GetCommitsInBranch returns.
use becloudless.Prelude.{
  String, ◌≡◌, refl, sym, ◌∙◌, ap, Bool, true, false, some, List, [], ◌∷◌, ◌++◌, if◌then◌else◌,
  contains, ok, arith, Bool-cases, inl, inr,
}
use becloudless.Prelude.{all_in}
use becloudless.Git.{
  GoGit, Log, main_branches, main_reachable, take_until_main, walk_log, get_commits_in_branch,
}

-- The hashes that are not in `main`, in their order.
abbrev pub outside : List String → List String → List String
outside main [] = []
outside main (h ∷ hashes) =
    let rest = outside main hashes in if contains main h then rest else h ∷ rest

-- A list has nothing, or starts with a hash of `main`.
abbrev pub starts_in : List String → List String → Bool
starts_in main [] = true
starts_in main (h ∷ hashes) = contains main h

-- No hash outside `main` follows one of `main`.
abbrev pub main_comes_last : List String → List String → Bool
main_comes_last main [] = true
main_comes_last main (h ∷ hashes) =
    let rest = main_comes_last main hashes in if contains main h then all_in main hashes else rest

outside-take_until_main :
    (main hashes : List String)
    → outside main (take_until_main main hashes) ≡ take_until_main main hashes
unfolding take_until_main
outside-take_until_main main [] = refl
outside-take_until_main main (h ∷ hashes) = elim (Bool-cases (contains main h)) [
  | inl e ↦ rw e refl
  | inr e ↦ rw (e, e) (ap (λ l. h ∷ l) (outside-take_until_main main hashes))
]

take_until_main-split :
    (main hashes : List String)
    → (rest : List String) × (hashes ≡ take_until_main main hashes ++ rest)
      × (starts_in main rest ≡ true)
unfolding take_until_main
take_until_main-split main [] = ([], refl, refl)
take_until_main-split main (h ∷ hashes) = elim (Bool-cases (contains main h)) [
  | inl e ↦ rw e (h ∷ hashes, refl, e)
  | inr e ↦
      let (rest, s, t) = take_until_main-split main hashes in rw e (rest, ap (λ l. h ∷ l) s, t)
]

outside-all_in : (main hashes : List String) → all_in main hashes ≡ true → outside main hashes ≡ []
outside-all_in main [] h = refl
outside-all_in main (g ∷ hashes) h = ground (arith, outside-all_in main hashes)

take_until_main-eq :
    (main hashes : List String)
    → main_comes_last main hashes ≡ true
    → take_until_main main hashes ≡ outside main hashes
unfolding take_until_main
take_until_main-eq main [] h = refl
take_until_main-eq main (g ∷ hashes) h = elim (Bool-cases (contains main g)) [
  | inl e ↦ rw e (sym (outside-all_in main hashes (rw e at h)))
  | inr e ↦ rw e (ap (λ l. g ∷ l) (take_until_main-eq main hashes (rw e at h)))
]

module _ (repo : GoGit) (branch ref : String) (log : Log)
    (found : repo.branch_ref branch ≡ some ref) (opened : repo.log ref ≡ some log)
    (complete : log.fails ≡ false) where
  abbrev main : List String
  main = main_reachable repo main_branches

  get_commits-eq : get_commits_in_branch repo branch ≡ ok (take_until_main main log.hashes)
  unfolding get_commits_in_branch walk_log
  get_commits-eq = rw (found, opened, complete) refl

  -- When the log of the branch opens and ends without an error, GetCommitsInBranch succeeds: its
  -- commits start the log, none of them is reached from a main branch, and the log goes on, if at
  -- all, with a commit that is.
  pub get_commits_in_branch-prefix :
      (commits rest : List String) × (get_commits_in_branch repo branch ≡ ok commits)
      × (log.hashes ≡ commits ++ rest)
      × (outside main commits ≡ commits)
      × (starts_in main rest ≡ true)
  get_commits_in_branch-prefix =
      let (rest, s, t) = take_until_main-split main log.hashes in
      (
        take_until_main main log.hashes,
        rest,
        get_commits-eq,
        s,
        outside-take_until_main main log.hashes,
        t,
      )

  -- When, besides, no commit outside the main branches follows one of theirs in the log, the commits
  -- of the branch are all those of its log that no main branch reaches, as
  -- `git log origin/main..branch` lists them.
  pub get_commits_in_branch-eq :
      main_comes_last main log.hashes ≡ true
      → get_commits_in_branch repo branch ≡ ok (outside main log.hashes)
  get_commits_in_branch-eq h = get_commits-eq ∙ ap ok (take_until_main-eq main log.hashes h)
