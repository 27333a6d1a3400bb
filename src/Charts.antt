-- ===== src/Charts.antt =====
-- Which charts are built, and in which order, when some of them changed: `addLocalDependents` of
-- cli/pkg/cmd/ci/ciChart.go. The folder of the charts and their Chart.yaml files are read by a
-- parameter. A `map[string]bool` whose values are all true is the list of its keys.
pub mod Selected
pub mod Least
pub mod Ordered
pub mod Dependents
pub mod Once
use becloudless.Prelude.{
  ℕ, zero, suc, String, Bool, true, false, ◌&&◌, ◌||◌, not, Option, none, some, List, [], ◌∷◌, ◌++◌,
  map, ◌==◌, ◌&◌, if◌then◌else◌, contains, Dict, lookup, insert, sort_strings, cut_prefix, clean,
  join_path, Outcome, ok, err, ◌>>=◌,
}

-- An entry of a folder.
pub record Entry : Type 0 where
  pub name : String
  pub is_dir : Bool

-- What reading the Chart.yaml of a folder gives: the repositories of its dependencies, no such
-- file, or another error.
pub data Chartfile : Type 0 where
  repositories : List String → Chartfile
  no_chartfile : Chartfile
  bad_chartfile : Chartfile

pub record ChartFolder : Type 0 where
  pub entries : Option (List Entry)
  pub chartfile : String → Chartfile

pub data ChartError : Type 0 where
  unreadable_folder : ChartError
  unreadable_chart : String → ChartError

abbrev pub charts_folder : String
charts_folder = "kube/charts"

abbrev pub or_empty_list : Option (List String) → List String
or_empty_list none = []
or_empty_list (some l) = l

-- the folders that the `file://` repositories of a chart name
unfoldable pub local_folders : String → List String → List String
local_folders dir [] = []
local_folders dir (repository ∷ list) =
    let rest = local_folders dir list in
    elim (cut_prefix repository "file://") [ none ↦ rest | some p ↦ join_path dir p ∷ rest ]

-- the charts of the folder and what each depends on
pub record Scan : Type 0 where
  pub all : List String
  pub local_deps : Dict (List String)

-- one entry that is a folder
unfoldable pub scan_chart : String → Chartfile → Scan → Outcome ChartError Scan
unfolding local_folders
scan_chart dir no_chartfile s = ok s
scan_chart dir bad_chartfile s = err (unreadable_chart dir)
scan_chart dir (repositories list) s = ok (record {
  all = s.all ++ dir ∷ [];
  local_deps =
      let old = or_empty_list (lookup dir s.local_deps) in
      insert dir (old ++ local_folders dir list) s.local_deps;
})

unfoldable pub scan_entries : (String → Chartfile) → List Entry → Scan → Outcome ChartError Scan
unfolding scan_chart
scan_entries chartfile [] s = ok s
scan_entries chartfile (e ∷ entries) s = do
  s' ←
      if e.is_dir
      then (let dir = join_path charts_folder e.name in scan_chart dir (chartfile dir) s)
      else ok s
  scan_entries chartfile entries s'

unfoldable pub any_in : List String → List String → Bool
any_in selected [] = false
any_in selected (dep ∷ list) = contains selected dep || any_in selected list

-- The charts that are visited and those that are ordered.
pub record Order : Type 0 where
  pub done : List String
  pub ordered : List String

abbrev pub mark : String → Order → Order
mark dir o = record { done = dir ∷ o.done; ordered = o.ordered }

abbrev pub append_dir : String → Order → Order
append_dir dir o = record { done = o.done; ordered = o.ordered ++ dir ∷ [] }

-- `for _, dep := range localDeps[dir]`
unfoldable pub visit_list : (String → Order → Order) → List String → Order → Order
visit_list visit [] o = o
visit_list visit (dep ∷ list) o = visit_list visit list (visit dep o)

-- The graph of the charts: `all` of them, sorted, and what each depends on.
module _ (deps : String → List String) where
  -- `for _, dir := range all`, with `updated`
  unfoldable pub select_round : List String → List String → Bool → List String × Bool
  unfolding any_in
  select_round [] selected updated = (selected, updated)
  select_round (dir ∷ all) selected updated =
      let hit = not (contains selected dir) && any_in selected (deps dir) in
      select_round all (if hit then dir ∷ selected else selected) (updated || hit)

  -- `for updated := true; updated;`
  unfoldable pub select_fuel : ℕ → List String → List String → List String
  unfolding select_round
  select_fuel zero all selected = selected
  select_fuel (suc fuel) all selected =
      let (selected', updated) = select_round all selected false in
      let more = select_fuel fuel all selected' in if updated then more else selected'

  -- `visit(dir)`
  unfoldable pub visit_fuel : List String → ℕ → String → Order → Order
  unfolding visit_list
  visit_fuel selected zero dir o = o
  visit_fuel selected (suc fuel) dir o =
      let o' = append_dir dir (visit_list (visit_fuel selected fuel) (deps dir) (mark dir o)) in
      if contains o.done dir || not (contains selected dir) then o else o'

unfoldable pub count : List String → ℕ
count [] = zero
count (s ∷ list) = suc (count list)

-- The selected charts: as many rounds as there are charts, and the last one.
unfoldable pub select : (String → List String) → List String → List String → List String
unfolding select_fuel count
select deps all changed = select_fuel deps (suc (count all)) all changed

-- The selected charts in the order of the visits, which go no deeper than there are selected charts.
unfoldable pub order : (String → List String) → List String → List String → List String
unfolding visit_list visit_fuel count
order deps selected all =
    let start : Order = record { done = []; ordered = [] } in
    (visit_list (visit_fuel deps selected (suc (count selected))) all start).ordered

unfoldable pub deps_of : Dict (List String) → String → List String
deps_of local_deps dir = map clean (or_empty_list (lookup dir local_deps))

-- `addLocalDependents(changed)`
unfoldable pub add_local_dependents : ChartFolder → List String → Outcome ChartError (List String)
unfolding scan_entries select order deps_of
add_local_dependents folder changed = do
  entries ← elim folder.entries [ none ↦ err unreadable_folder | some list ↦ ok list ]
  s ← scan_entries folder.chartfile entries (record { all = []; local_deps = [] })
  let all = sort_strings s.all
  let deps = deps_of s.local_deps
  ok (order deps (select deps all changed) all)
