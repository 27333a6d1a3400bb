-- ===== src/Bootstrap/Owned.antt =====
-- What kubeBootstrap.go applies for flux to fetch the charts: `gitRepositoryDocs`.
use becloudless.Prelude.{
  String, Bool, false, ◌&&◌, ◌||◌, not, ◌==◌, Option, none, some, List, [], ◌∷◌, ◌++◌, map,
  if◌then◌else◌, contains,
}
use becloudless.Json.{str, obj, Fields, Items, nil, cons, get, set, as_obj, as_arr, or_end}
use becloudless.Flux.{Metadata}
use becloudless.Bootstrap.{Docs, get_in, has_kind, equals_text, nested_text}

-- `appsHelmRelease`
pub record AppsHelmRelease : Type 0 where
  pub metadata : Metadata
  pub service_account_name : String
  pub values : Fields

-- whether one of the subjects is the account
unfoldable pub binds : Items → String → String → Bool
binds nil name namespace = false
binds (cons subject subjects) name namespace =
    (equals_text (get_in (some subject) "name") name
      && equals_text (get_in (some subject) "namespace") namespace)
    || binds subjects name namespace

abbrev pub subjects_of : Option Items → Items
subjects_of none = nil
subjects_of (some l) = l

-- the docs that pass a test, in their order
unfoldable pub filter_docs : (Fields → Bool) → Docs → Docs
filter_docs test [] = []
filter_docs test (doc ∷ docs) =
    let rest = filter_docs test docs in if test doc then doc ∷ rest else rest

-- A missing name reads as the empty one here.
abbrev pub is_account : AppsHelmRelease → Fields → Bool
is_account hr doc =
    has_kind doc "ServiceAccount"
    && nested_text doc ("metadata" ∷ "name" ∷ []) == hr.service_account_name
    && nested_text doc ("metadata" ∷ "namespace" ∷ []) == hr.metadata.namespace

abbrev pub is_binding : AppsHelmRelease → Fields → Bool
is_binding hr doc =
    has_kind doc "ClusterRoleBinding"
    && binds (subjects_of (as_arr (get "subjects" doc))) hr.service_account_name
        hr.metadata.namespace

abbrev pub with_bindings : Docs → Docs → Docs
with_bindings [] bindings = []
with_bindings (account ∷ accounts) bindings = account ∷ accounts ++ bindings

-- `appsServiceAccountDocs`
unfoldable pub apps_service_account_docs : Docs → AppsHelmRelease → Docs
unfolding filter_docs
apps_service_account_docs docs hr =
    with_bindings (filter_docs (is_account hr) docs) (filter_docs (is_binding hr) docs)

abbrev pub is_git_repository : Fields → Bool
is_git_repository doc = has_kind doc "GitRepository"

-- the keys of `namespaces`: the named namespaces of the git repositories
unfoldable pub repository_namespaces : Docs → List String
repository_namespaces [] = []
repository_namespaces (doc ∷ docs) =
    let namespace = nested_text doc ("metadata" ∷ "namespace" ∷ []) in
    let rest = repository_namespaces docs in
    if is_git_repository doc && not (namespace == "") then namespace ∷ rest else rest

abbrev pub is_namespace_of : List String → Fields → Bool
is_namespace_of namespaces doc =
    has_kind doc "Namespace" && contains namespaces (nested_text doc ("metadata" ∷ "name" ∷ []))

-- The marks by which helm adopts a resource.
unfoldable pub mark_metadata : Metadata → Fields → Fields
unfolding set
mark_metadata release metadata =
    let labels =
      set "app.kubernetes.io/managed-by" (str "Helm") (or_end (as_obj (get "labels" metadata))) in
    let annotations = set "meta.helm.sh/release-namespace" (str release.namespace) (
      set "meta.helm.sh/release-name" (str release.name)
        (or_end (as_obj (get "annotations" metadata)))) in
    set "annotations" (obj annotations) (set "labels" (obj labels) metadata)

unfoldable pub mark_owned : Metadata → Fields → Fields
unfolding mark_metadata set
mark_owned release doc =
    set "metadata" (obj (mark_metadata release (or_end (as_obj (get "metadata" doc))))) doc

-- `result` before its docs are marked
unfoldable pub handed_over : Docs → AppsHelmRelease → Docs
unfolding filter_docs repository_namespaces apps_service_account_docs
handed_over docs hr =
    filter_docs (is_namespace_of (repository_namespaces docs)) docs
    ++ (filter_docs is_git_repository docs ++ apps_service_account_docs docs hr)

-- `gitRepositoryDocs`
unfoldable pub git_repository_docs : Docs → AppsHelmRelease → Docs
unfolding handed_over mark_owned
git_repository_docs docs hr = map (mark_owned hr.metadata) (handed_over docs hr)
