-- ===== src/Tests/Ci.antt =====
-- Runs and witnesses for cli/pkg/git/changes.go and cli/pkg/cmd/ci/ciChart.go.
use becloudless.Prelude.{
  ℕ, ◌<◌, String, ◌≡◌, refl, true, false, none, some, List, [], ◌∷◌, ◌==◌, if◌then◌else◌, contains,
  Dict, lookup, insert, ok, arith, eq_iff, sort_strings, all_in, ◌++◌, join, join_path, clean,
  subst, Bool-cases, inl, inr,
}
use becloudless.Git.{
  GoGit, Log, parent, no_parent, on_branch, FilePatch, ChangeType, get_commits_in_branch,
  get_files_changed_in_current_branch, main_reachable, main_branches, commits_to_analyze,
  get_current_branch_name, get_files_changed_in_commit,
}
use becloudless.Git.Commits.{
  outside, starts_in, get_commits_in_branch-prefix, get_commits_in_branch-eq,
}
use becloudless.Git.Files.{oldest_change, get_files_changed_in_current_branch-oldest}
use becloudless.Charts.{
  Entry, Chartfile, repositories, ChartFolder, Scan, scan_entries, deps_of, select, order,
  add_local_dependents, any_in,
}
use becloudless.Charts.Selected.{is_closed, select-IsClosed}
use becloudless.Charts.Least.{select-least}
use becloudless.Charts.Ordered.{in_order, ready, order-in_order}
use becloudless.Charts.Once.{is_distinct, order-IsDistinct}
use becloudless.Charts.Dependents.{selected_of, add_local_dependents-in_order}

-- A repository whose branch `topic` has two commits on top of `main`.
abbrev topic_log : Log
topic_log = record { hashes = "c4" ∷ "c3" ∷ "c2" ∷ "c1" ∷ []; fails = false }

abbrev patches_of : String → List FilePatch
patches_of commit =
    if commit == "c3"
    then record { from = none; to = some "a.go" } ∷ []
    else record { from = some "a.go"; to = some "b.go" } ∷ []

abbrev topic_repo : GoGit
topic_repo = record {
  head = some (on_branch "topic");
  branch_ref = λ b. if b == "topic" then some "c4" else if b == "main" then some "c2" else none;
  remote_ref = λ remote b. none;
  log = λ hash.
      if hash == "c4"
      then some topic_log
      else some (record { hashes = "c2" ∷ "c1" ∷ []; fails = false });
  from_hex = λ s. some s;
  commit_object = λ s. some s;
  first_parent = λ s. if s == "c1" then no_parent else parent "c1";
  diff = λ from commit. some (patches_of commit);
}

get_commits_in_branch-prefix_example :
    (commits rest : List String) × (get_commits_in_branch topic_repo "topic" ≡ ok commits)
    × (topic_log.hashes ≡ commits ++ rest)
    × (outside (main_reachable topic_repo main_branches) commits ≡ commits)
    × (starts_in (main_reachable topic_repo main_branches) rest ≡ true)
get_commits_in_branch-prefix_example =
    get_commits_in_branch-prefix topic_repo "topic" "c4" topic_log refl refl refl

get_commits_in_branch-eq_example :
    get_commits_in_branch topic_repo "topic"
    ≡ ok (outside (main_reachable topic_repo main_branches) topic_log.hashes)
unfolding main_reachable contains
get_commits_in_branch-eq_example =
    get_commits_in_branch-eq topic_repo "topic" "c4" topic_log refl refl refl refl

get_files_changed_in_current_branch-oldest_example :
    (files : Dict ChangeType) × (get_files_changed_in_current_branch topic_repo ≡ ok files)
    × ((path : String) → lookup path files ≡ oldest_change topic_repo path ("c4" ∷ "c3" ∷ []))
unfolding get_current_branch_name commits_to_analyze get_commits_in_branch
    get_files_changed_in_commit contains
get_files_changed_in_current_branch-oldest_example =
    get_files_changed_in_current_branch-oldest topic_repo "topic" ("c4" ∷ "c3" ∷ []) refl refl refl

-- Three charts and a file: `app` depends on `base` beside it.
abbrev entries : List Entry
entries =
    record { name = "app"; is_dir = true }
    ∷ record { name = "base"; is_dir = true }
    ∷ record { name = "other"; is_dir = true }
    ∷ record { name = "README.md"; is_dir = false }
    ∷ []

abbrev chartfile_of : String → Chartfile
chartfile_of dir =
    if dir == "kube/charts/app"
    then repositories ("file://../base" ∷ "https://charts.example.com" ∷ [])
    else repositories []

abbrev folder : ChartFolder
folder = record { entries = some entries; chartfile = chartfile_of }

abbrev scan : Scan
scan = record {
  all = "kube/charts/app" ∷ "kube/charts/base" ∷ "kube/charts/other" ∷ [];
  local_deps =
      ("kube/charts/app", "kube/charts/base" ∷ [])
      ∷ ("kube/charts/base", [])
      ∷ ("kube/charts/other", [])
      ∷ [];
}

abbrev changed : List String
changed = "kube/charts/base" ∷ []

scan_run : scan_entries chartfile_of entries (record { all = []; local_deps = [] }) ≡ ok scan
unfolding scan_entries join_path join insert lookup
scan_run = refl

add_local_dependents_run :
    add_local_dependents folder changed ≡ ok ("kube/charts/base" ∷ "kube/charts/app" ∷ [])
unfolding add_local_dependents join_path join sort_strings contains lookup insert
add_local_dependents_run = refl

abbrev rank : String → ℕ
rank dir = if "kube/charts/app" == dir then 1 else 0

acyclic : (d dep : String) → contains (deps_of scan.local_deps d) dep ≡ true → rank dep < rank d
unfolding deps_of lookup contains clean join
acyclic d dep c = elim (Bool-cases ("kube/charts/app" == d)) [
  | inl e ↦ elim (Bool-cases ("kube/charts/base" == dep)) [
    | inl f ↦ rw e (subst (λ x. rank x < 1) ((eq_iff "kube/charts/base" dep).0 f) (omega arith))
    | inr f ↦ cc (rw (e, f) at c)
  ]
  | inr e ↦ elim (Bool-cases ("kube/charts/base" == d)) [
    | inl f ↦ cc (rw (e, f) at c)
    | inr f ↦ elim (Bool-cases ("kube/charts/other" == d)) [
      | inl g ↦ cc (rw (e, f, g) at c)
      | inr g ↦ cc (rw (e, f, g) at c)
    ]
  ]
]

add_local_dependents-in_order_example :
    (out : List String) × (add_local_dependents folder changed ≡ ok out)
    × (all_in (selected_of scan changed) changed ≡ true)
    × (is_closed (deps_of scan.local_deps) (selected_of scan changed) (sort_strings scan.all)
        ≡ true)
    × (ready (selected_of scan changed) out (sort_strings scan.all) ≡ true)
    × (in_order (deps_of scan.local_deps) (selected_of scan changed) [] out ≡ true)
add_local_dependents-in_order_example =
    add_local_dependents-in_order folder changed entries scan rank refl scan_run acyclic

order-in_order_example :
    (in_order
        (deps_of scan.local_deps)
        changed
        []
        (order (deps_of scan.local_deps) changed scan.all)
      ≡ true)
    × (ready changed (order (deps_of scan.local_deps) changed scan.all) scan.all ≡ true)
order-in_order_example = order-in_order (deps_of scan.local_deps) changed scan.all rank acyclic

select-IsClosed_example :
    (all_in (select (deps_of scan.local_deps) scan.all changed) changed ≡ true)
    × (is_closed
          (deps_of scan.local_deps)
          (select (deps_of scan.local_deps) scan.all changed)
          scan.all
        ≡ true)
select-IsClosed_example = select-IsClosed (deps_of scan.local_deps) scan.all changed

select-least_example :
    all_in
      ("kube/charts/app" ∷ "kube/charts/base" ∷ [])
      (select (deps_of scan.local_deps) scan.all changed)
    ≡ true
unfolding contains deps_of lookup join any_in clean
select-least_example =
    select-least (deps_of scan.local_deps) scan.all changed
      ("kube/charts/app" ∷ "kube/charts/base" ∷ []) refl refl

order-IsDistinct_example :
    (is_distinct (order (deps_of scan.local_deps) changed scan.all) ≡ true)
    × (all_in changed (order (deps_of scan.local_deps) changed scan.all) ≡ true)
order-IsDistinct_example = order-IsDistinct (deps_of scan.local_deps) changed scan.all
