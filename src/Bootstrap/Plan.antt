-- ===== src/Bootstrap/Plan.antt =====
-- What `applyRenderedApps` of kubeBootstrap.go does with each resource before it runs a program.
use becloudless.Prelude.{
  ℕ, suc, String, Bool, ◌&&◌, ◌||◌, Option, List, [], ◌∷◌, ◌++◌, ◌&◌, ◌==◌, if◌then◌else◌, ok, err,
  or_fail, ◌>>=◌, join_path, three_digits,
}
use becloudless.Json.{Fields, get, as_str, or_empty}
use becloudless.Bootstrap.{
  Docs, Result, repository_missing, write_failed, marshal_failed, nested_text,
  find_doc_in_namespace,
}
use becloudless.Flux.{NamespacedObjectKindReference}

-- `renderedApp`
pub record RenderedApp : Type 0 where
  pub name : String
  pub docs : Docs

-- `fluxResource`
pub record FluxResource : Type 0 where
  pub folder : String
  pub ref : NamespacedObjectKindReference

-- `gitKustomization`
pub record GitKustomization : Type 0 where
  pub app : String
  pub kustomize : Fields
  pub repository : Fields

-- The lists that the loop over the apps fills, and the files that it writes.
pub record Plan : Type 0 where
  pub namespaces : Docs
  pub git_kustomizations : List GitKustomization
  pub helm_releases : List FluxResource
  pub kustomizations : List FluxResource
  pub files : List (String × String)

abbrev pub empty_plan : Plan
empty_plan = record {
  namespaces = [];
  git_kustomizations = [];
  helm_releases = [];
  kustomizations = [];
  files = [];
}

-- what one resource adds, before what the ones after it add
unfoldable pub beside : Plan → Plan → Plan
beside p q = record {
  namespaces = p.namespaces ++ q.namespaces;
  git_kustomizations = p.git_kustomizations ++ q.git_kustomizations;
  helm_releases = p.helm_releases ++ q.helm_releases;
  kustomizations = p.kustomizations ++ q.kustomizations;
  files = p.files ++ q.files;
}

-- the cases of the `switch`
pub data Class : Type 0 where
  namespace : Class
  git_kustomization : Class
  source : Class
  helm_release : Class
  oci_kustomization : Class
  left_to_flux : Class

abbrev pub kind_of : Fields → String
kind_of doc = or_empty (as_str (get "kind" doc))

abbrev pub source_kind : Fields → String
source_kind doc = nested_text doc ("spec" ∷ "sourceRef" ∷ "kind" ∷ [])

abbrev pub chart_source_kind : Fields → String
chart_source_kind doc = nested_text doc ("spec" ∷ "chart" ∷ "spec" ∷ "sourceRef" ∷ "kind" ∷ [])

unfoldable pub class_of : Fields → Class
class_of doc =
    if kind_of doc == "Namespace"
    then namespace
    else if kind_of doc == "Kustomization" && source_kind doc == "GitRepository"
    then git_kustomization
    else if kind_of doc == "HelmRepository" || kind_of doc == "OCIRepository"
    then source
    else if kind_of doc == "HelmRelease" && chart_source_kind doc == "HelmRepository"
    then helm_release
    else if kind_of doc == "Kustomization" && source_kind doc == "OCIRepository"
    then oci_kustomization
    else left_to_flux

unfoldable pub ref_to : Fields → NamespacedObjectKindReference
ref_to doc = record {
  kind = kind_of doc;
  name = nested_text doc ("metadata" ∷ "name" ∷ []);
  namespace = nested_text doc ("metadata" ∷ "namespace" ∷ []);
}

-- `strings.ToLower(kind)`, of the kinds that are written to a file
abbrev pub lower_kind : String → String
lower_kind kind =
    if kind == "HelmRepository"
    then "helmrepository"
    else if kind == "OCIRepository"
    then "ocirepository"
    else if kind == "HelmRelease"
    then "helmrelease"
    else "kustomization"

abbrev pub or_own : String → String → String
or_own source_namespace own = if source_namespace == "" then own else source_namespace

module _ (marshal : Fields → Option String) (writable : String → Bool) (tmp_dir : String) where
  abbrev pub app_dir : String → String
  app_dir name = join_path tmp_dir name

  abbrev pub file_of : String → ℕ → Fields → String
  file_of app i doc = join_path (app_dir app) (
      three_digits i
      & "-"
      & lower_kind (kind_of doc)
      & "-"
      & nested_text doc ("metadata" ∷ "name" ∷ [])
      & ".yaml")

  -- the end of the loop's body: the resource in a file of the folder of its app
  unfoldable pub write_doc : String → ℕ → Fields → Plan → Result Plan
  unfolding join_path three_digits
  write_doc app i doc plan = or_fail marshal_failed (marshal doc) >>= λ content.
      (if writable (file_of app i doc)
        then ok (record plan { files = (file_of app i doc, content) ∷ [] })
        else err (write_failed (file_of app i doc)))

  -- the repository of a kustomization, of the resources of its app
  unfoldable pub repository_of : RenderedApp → Fields → Result Fields
  unfolding find_doc_in_namespace
  repository_of app doc =
      let source_name = nested_text doc ("spec" ∷ "sourceRef" ∷ "name" ∷ []) in
      or_fail (repository_missing app.name (nested_text doc ("metadata" ∷ "name" ∷ [])) source_name)
        (find_doc_in_namespace app.docs "GitRepository" source_name (
          or_own (nested_text doc ("spec" ∷ "sourceRef" ∷ "namespace" ∷ []))
            (nested_text doc ("metadata" ∷ "namespace" ∷ []))))

  -- the body of the loop over the resources of an app
  unfoldable pub plan_class : Class → RenderedApp → ℕ → Fields → Result Plan
  unfolding write_doc repository_of ref_to
  plan_class namespace app i doc = ok (record empty_plan { namespaces = doc ∷ [] })
  plan_class git_kustomization app i doc = repository_of app doc >>= λ repository.
      ok (record empty_plan {
        git_kustomizations =
            record { app = app.name; kustomize = doc; repository = repository } ∷ [];
      })
  plan_class source app i doc = write_doc app.name i doc empty_plan
  plan_class helm_release app i doc = write_doc app.name i doc (record empty_plan {
    helm_releases = record { folder = app_dir app.name; ref = ref_to doc } ∷ [];
  })
  plan_class oci_kustomization app i doc = write_doc app.name i doc (record empty_plan {
    kustomizations = record { folder = app_dir app.name; ref = ref_to doc } ∷ [];
  })
  plan_class left_to_flux app i doc = ok empty_plan

  unfoldable pub plan_docs : RenderedApp → ℕ → Docs → Result Plan
  unfolding plan_class class_of beside
  plan_docs app i [] = ok empty_plan
  plan_docs app i (doc ∷ docs) = plan_class (class_of doc) app i doc >>= λ plan.
      plan_docs app (suc i) docs >>= λ more. ok (beside plan more)

  -- the loop over the apps
  unfoldable pub plan_apps : List RenderedApp → Result Plan
  unfolding plan_docs beside
  plan_apps [] = ok empty_plan
  plan_apps (app ∷ apps) =
      (if writable (app_dir app.name)
        then plan_docs app 0 app.docs
        else err (write_failed (app_dir app.name)))
      >>= λ plan. plan_apps apps >>= λ more. ok (beside plan more)
