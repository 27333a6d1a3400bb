-- ===== src/Charts/Dependents.antt =====
-- About `addLocalDependents` of cli/pkg/cmd/ci/ciChart.go as a whole.
use becloudless.Prelude.{
  ℕ, ◌<◌, String, ◌≡◌, refl, true, some, List, [], contains, sort_strings, all_in, ok,
}
use becloudless.Charts.{
  Entry, ChartFolder, Scan, scan_entries, select, order, deps_of, add_local_dependents,
}
use becloudless.Charts.Selected.{is_closed, select-IsClosed}
use becloudless.Charts.Ordered.{in_order, ready, order-in_order}

-- the charts that are selected among those of a scan
abbrev pub selected_of : Scan → List String → List String
selected_of s changed = select (deps_of s.local_deps) (sort_strings s.all) changed

-- When the charts can be read and none depends on itself through others, which the rank shows, the
-- charts to build are found. With the selected charts, which have the changed ones and every chart
-- with a selected dependency, the charts to build have all selected charts of the folder, each after
-- its selected dependencies.
pub add_local_dependents-in_order :
    (folder : ChartFolder) (changed : List String) (entries : List Entry) (s : Scan)
    (rank : String → ℕ)
    → folder.entries ≡ some entries
    → scan_entries folder.chartfile entries (record { all = []; local_deps = [] }) ≡ ok s
    → ((d dep : String) → contains (deps_of s.local_deps d) dep ≡ true → rank dep < rank d)
    → (out : List String) × (add_local_dependents folder changed ≡ ok out)
      × (all_in (selected_of s changed) changed ≡ true)
      × (is_closed (deps_of s.local_deps) (selected_of s changed) (sort_strings s.all) ≡ true)
      × (ready (selected_of s changed) out (sort_strings s.all) ≡ true)
      × (in_order (deps_of s.local_deps) (selected_of s changed) [] out ≡ true)
unfolding add_local_dependents
add_local_dependents-in_order folder changed entries s rank h g acyclic =
    let deps = deps_of s.local_deps in
    let all = sort_strings s.all in
    let selected = selected_of s changed in
    let (i, c) = select-IsClosed deps all changed in
    let (o, r) = order-in_order deps selected all rank acyclic in
    rw (h, g) (order deps selected all, refl, i, c, r, o)
