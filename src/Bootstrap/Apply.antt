-- ===== src/Bootstrap/Apply.antt =====
-- How kubeBootstrap.go applies the rendered apps, and hands over to flux.
use becloudless.Prelude.{
  String, Bool, true, false, ◌||◌, ◌==◌, Option, List, [], ◌∷◌, if◌then◌else◌, ok, err, ◌>>=◌,
  join_path, or_fail,
}
use becloudless.Json.{Fields, end, field, str, obj}
use becloudless.Bootstrap.{
  Docs, Result, has_kind, no_account, release_unreadable, release_malformed,
}
use becloudless.Bootstrap.Commands.{
  Call, helm_release, flux_kustomization, Answers, Run, Done, done, ◌then◌, run, apply_docs,
  apply_git_kustomization, wait_flux_crds, apply_resources_file,
}
use becloudless.Bootstrap.Plan.{RenderedApp, FluxResource, GitKustomization, Plan, plan_apps}
use becloudless.Bootstrap.Owned.{AppsHelmRelease, filter_docs}

module _ (answers : Answers) where
  unfoldable pub apply_git_kustomizations : List GitKustomization → List Call → Run Done
  unfolding apply_git_kustomization
  apply_git_kustomizations [] calls = (ok done, calls)
  apply_git_kustomizations (ks ∷ list) calls =
      apply_git_kustomization answers ks.kustomize ks.repository calls then λ ended more.
      apply_git_kustomizations list more

  unfoldable pub apply_helm_releases : List FluxResource → List Call → Run Done
  unfolding run
  apply_helm_releases [] calls = (ok done, calls)
  apply_helm_releases (hr ∷ list) calls =
      run answers (helm_release hr.folder hr.ref) calls then λ output more.
      apply_helm_releases list more

  unfoldable pub apply_kustomizations : List FluxResource → List Call → Run Done
  unfolding run
  apply_kustomizations [] calls = (ok done, calls)
  apply_kustomizations (ks ∷ list) calls =
      run answers (flux_kustomization ks.folder ks.ref) calls then λ output more.
      apply_kustomizations list more

module _ (answers : Answers) (marshal : Fields → Option String) where
  -- `applyRenderedApps` once the lists are filled
  unfoldable pub apply_plan : Plan → List Call → Run Done
  unfolding apply_docs apply_git_kustomizations apply_helm_releases apply_kustomizations
  apply_plan plan calls =
      apply_docs answers marshal plan.namespaces calls then λ a after_namespaces.
      apply_git_kustomizations answers plan.git_kustomizations after_namespaces then λ b after_git.
      apply_helm_releases answers plan.helm_releases after_git then λ c after_helm.
      apply_kustomizations answers plan.kustomizations after_helm

  module _ (writable : String → Bool) (tmp_dir : String) where
    abbrev pub apply_planned : Result Plan → List Call → Run Done
    apply_planned (err e) calls = (err e, calls)
    apply_planned (ok plan) calls = apply_plan plan calls

    -- `applyRenderedApps`
    unfoldable pub apply_rendered_apps : List RenderedApp → List Call → Run Done
    unfolding plan_apps apply_plan
    apply_rendered_apps apps calls = apply_planned (plan_apps marshal writable tmp_dir apps) calls

abbrev pub or_default : String → String → String
or_default text default = if text == "" then default else text

-- the defaults of `readAppsHelmRelease`
unfoldable pub with_defaults : AppsHelmRelease → AppsHelmRelease
with_defaults hr = record hr {
  metadata = record {
    name = or_default hr.metadata.name "apps";
    namespace = or_default hr.metadata.namespace "apps";
  };
}

abbrev pub cluster_apps_hr_file : String
cluster_apps_hr_file = "apps/apps.hr.yaml"

module _ (read_file : String → Option String)
    (decode_release : String → Option AppsHelmRelease) where
  -- `readAppsHelmRelease`
  unfoldable pub read_apps_helm_release : String → Result AppsHelmRelease
  unfolding join_path with_defaults
  read_apps_helm_release cluster_path =
      or_fail (release_unreadable (join_path cluster_path cluster_apps_hr_file))
        (read_file (join_path cluster_path cluster_apps_hr_file))
      >>= λ content.
          or_fail (release_malformed (join_path cluster_path cluster_apps_hr_file))
            (decode_release content)
          >>= λ hr. ok (with_defaults hr)

abbrev pub is_account_kind : Fields → Bool
is_account_kind doc = has_kind doc "ServiceAccount" || has_kind doc "ClusterRoleBinding"

-- the cases of the `switch` of `applyBcl`
abbrev pub is_namespace_kind : Fields → Bool
is_namespace_kind doc = has_kind doc "Namespace"

abbrev pub is_other_kind : Fields → Bool
is_other_kind doc =
    if is_namespace_kind doc then false else if is_account_kind doc then false else true

-- the namespace that `applyBcl` makes
abbrev pub namespace_doc : String → Fields
namespace_doc name =
    field "apiVersion" (str "v1")
      (field "kind" (str "Namespace") (field "metadata" (obj (field "name" (str name) end)) end))

module _ (answers : Answers) (marshal : Fields → Option String) (cluster_path : String) where
  abbrev pub apply_accounts : AppsHelmRelease → Docs → List Call → Run Done
  apply_accounts hr [] calls = (err (no_account hr.service_account_name), calls)
  apply_accounts hr (account ∷ accounts) calls =
      apply_docs answers marshal (account ∷ accounts) calls

  -- `applyBcl` with the release that it reads
  unfoldable pub hand_over : AppsHelmRelease → Docs → List Call → Run Done
  unfolding apply_docs apply_resources_file filter_docs join_path
  hand_over hr docs calls =
      apply_docs answers marshal
        (namespace_doc hr.metadata.namespace ∷ filter_docs is_namespace_kind docs) calls
      then λ a after_namespaces.
          apply_docs answers marshal (filter_docs is_other_kind docs) after_namespaces
          then λ b after_repositories.
              apply_accounts hr (filter_docs is_account_kind docs) after_repositories
              then λ c after_accounts.
                  apply_resources_file answers (join_path cluster_path cluster_apps_hr_file)
                    after_accounts

  abbrev pub hand_over_read : Result AppsHelmRelease → Docs → List Call → Run Done
  hand_over_read (err e) docs calls = (err e, calls)
  hand_over_read (ok hr) docs calls = hand_over hr docs calls

  -- `applyBcl`
  unfoldable pub apply_bcl : Result AppsHelmRelease → Docs → List Call → Run Done
  unfolding wait_flux_crds hand_over
  apply_bcl read docs calls =
      wait_flux_crds answers calls then λ a after_wait. hand_over_read read docs after_wait
