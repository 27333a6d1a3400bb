-- ===== src/Bootstrap/Render.antt =====
-- `renderGroupApps` of kubeBootstrap.go: the apps chart with the values of the cluster, and the chart of
-- each app of the group.
use becloudless.Prelude.{
  String, Bool, true, false, ◌==◌, ◌&◌, Option, none, some, List, [], ◌∷◌, ◌++◌, if◌then◌else◌, ok,
  err, or_fail, ◌>>=◌, join_path, split_on,
}
use becloudless.Json.{bool, Fields, end, field, obj, get, set, as_obj, or_end}
use becloudless.Bootstrap.{
  Docs, Result, not_embedded, no_app_in_group, render_failed, manifest_malformed, nested_text,
  find_doc, find_namespace,
}
use becloudless.Bootstrap.Values.{merge_values, deep_copy_map, apps_of_group, helm_release_values}
use becloudless.Bootstrap.Owned.{
  AppsHelmRelease, is_namespace_of, repository_namespaces, mark_owned, git_repository_docs,
}
use becloudless.Bootstrap.Plan.{RenderedApp}

abbrev pub is_empty_doc : Fields → Bool
is_empty_doc end = true
is_empty_doc (field k v m) = false

abbrev drop_empty : Docs → Docs
drop_empty [] = []
drop_empty (doc ∷ docs) =
    let rest = drop_empty docs in if is_empty_doc doc then rest else doc ∷ rest

-- `splitManifest`, of the documents that the decoder reads, and whether it fails after them
unfoldable pub split_manifest : Docs × Bool → Result Docs
split_manifest (docs, failed) = if failed then err manifest_malformed else ok (drop_empty docs)

-- every group that the cluster names, disabled
unfoldable pub disabled : Fields → Fields
disabled end = end
disabled (field name v m) = field name (obj (field "enabled" (bool false) end)) (disabled m)

-- the `appsGroups` of the values
unfoldable pub only_group : Fields → String → Fields
unfolding disabled set
only_group values group =
    set "appsGroups"
      (obj (
        set group (obj (field "enabled" (bool true) end))
          (disabled (or_end (as_obj (get "appsGroups" values))))))
      values

abbrev last_of : List String → String
last_of [] = ""
last_of (s ∷ []) = s
last_of (s ∷ t ∷ list) = last_of (t ∷ list)

abbrev drop_empty_texts : List String → List String
drop_empty_texts [] = []
drop_empty_texts (s ∷ list) = let rest = drop_empty_texts list in if s == "" then rest else s ∷ rest

abbrev or_slash : String → String → String
or_slash path last = if path == "" then "." else if last == "" then "/" else last

-- `filepath.Base(path)`
unfoldable pub base_name : String → String
unfolding split_on
base_name path = or_slash path (last_of (drop_empty_texts (split_on "/" path)))

abbrev pub or_text : String → String → String
or_text override text = if override == "" then text else override

abbrev pub release_namespace_of : Fields → String
release_namespace_of hr =
    or_text (nested_text hr ("spec" ∷ "targetNamespace" ∷ []))
      (nested_text hr ("metadata" ∷ "namespace" ∷ []))

-- What the rendering uses: the charts of the binary (their loading, rendering and default values), and
-- the decoder.
pub record Charts (Chart : Type 0) : Type 0 where
  pub embedded_path : String
  pub load : String → Result Chart
  pub default_values : Chart → Fields
  pub template : Chart → Fields → String → String → String → Option String
  pub decode : String → Docs × Bool
  pub parse_yaml : String → Option Fields

module _ {Chart : Type 0} (charts : Charts Chart) (kube_version : String) where
  abbrev pub charts_path : String
  charts_path = join_path charts.embedded_path "assets/kube/charts"

  -- `RenderChart` and `splitManifest`
  unfoldable pub render : Chart → Fields → String → String → Result Docs
  unfolding split_manifest
  render chart values name namespace =
      or_fail (render_failed name) (charts.template chart values name namespace kube_version)
      >>= λ manifest. split_manifest (charts.decode manifest)

  abbrev pub shared_namespace : AppsHelmRelease → Docs → Option Fields → Docs
  shared_namespace apps_hr apps_docs none = []
  shared_namespace apps_hr apps_docs (some doc) =
      (if is_namespace_of (repository_namespaces apps_docs) doc
        then mark_owned apps_hr.metadata doc
        else doc)
      ∷ []

  -- One app: its namespace resource is the one of the apps chart, which `gitRepositoryDocs` marks
  -- afterwards where it stands.
  unfoldable pub render_app : AppsHelmRelease → Docs → String → Fields → Result RenderedApp
  unfolding helm_release_values render base_name find_namespace join_path repository_namespaces
      mark_owned
  render_app apps_hr apps_docs name hr =
      helm_release_values charts.parse_yaml hr apps_docs >>= λ app_values.
      charts.load (
        join_path charts_path
          (base_name (nested_text hr ("spec" ∷ "chart" ∷ "spec" ∷ "chart" ∷ []))))
      >>= λ chart.
          render chart app_values
            (or_text (nested_text hr ("spec" ∷ "releaseName" ∷ [])) ("app-" & name))
            (release_namespace_of hr)
          >>= λ docs. ok (record {
            name = name;
            docs =
                shared_namespace apps_hr apps_docs
                  (find_namespace apps_docs (release_namespace_of hr))
                ++ docs;
          })

  abbrev pub render_found :
      AppsHelmRelease
      → Docs
      → String
      → Option Fields
      → Result (List RenderedApp)
      → Result (List RenderedApp)
  render_found apps_hr apps_docs name none rest = rest
  render_found apps_hr apps_docs name (some hr) rest =
      render_app apps_hr apps_docs name hr >>= λ app. rest >>= λ apps. ok (app ∷ apps)

  -- the loop over the apps of the group, of which the cluster may disable some
  unfoldable pub render_apps : AppsHelmRelease → Docs → List String → Result (List RenderedApp)
  unfolding render_app find_doc
  render_apps apps_hr apps_docs [] = ok []
  render_apps apps_hr apps_docs (name ∷ names) =
      render_found apps_hr apps_docs name (find_doc apps_docs "HelmRelease" ("app-" & name))
        (render_apps apps_hr apps_docs names)

  abbrev pub render_members :
      AppsHelmRelease → String → Chart → List String → Result (List RenderedApp × Docs)
  render_members apps_hr group apps_chart [] = err (no_app_in_group group)
  render_members apps_hr group apps_chart (name ∷ names) =
      render apps_chart (only_group apps_hr.values group) apps_hr.metadata.name
        apps_hr.metadata.namespace
      >>= λ apps_docs. render_apps apps_hr apps_docs (name ∷ names) >>= λ apps.
          ok (apps, git_repository_docs apps_docs apps_hr)

  -- `renderGroupApps`
  unfoldable pub render_group_apps :
      Result AppsHelmRelease → String → Result (List RenderedApp × Docs)
  unfolding render render_apps only_group apps_of_group merge_values deep_copy_map join_path
  render_group_apps read group =
      if charts.embedded_path == ""
      then err not_embedded
      else (read >>= λ apps_hr. charts.load (join_path charts_path "apps") >>= λ apps_chart.
          render_members apps_hr group apps_chart (
            apps_of_group
              (merge_values (deep_copy_map (charts.default_values apps_chart))
                (deep_copy_map apps_hr.values))
              group))
