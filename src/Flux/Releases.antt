-- ===== src/Flux/Releases.antt =====
-- `applyFluxHelmReleaseWithHelm` and `applyFluxKustomizationWithKustomize` of
-- cli/pkg/cmd/kube/kubeBootstrapOld.go. The Helm library is a parameter: whether it reaches a repository,
-- and how an upgrade and an install end.
use becloudless.Prelude.{
  ℕ, suc, String, Bool, ◌&&◌, ◌==◌, ◌&◌, Option, none, some, List, [], ◌∷◌, Dict, if◌then◌else◌, ok,
  err, ◌>>=◌, decimal, join_path,
}
use becloudless.Json.{Fields}
use becloudless.Flux.{
  Metadata, NamespacedObjectKindReference, FluxResult, walk_failed, file_unreadable, file_malformed,
  not_found, helm_failed, write_failed, kubectl_failed, WalkEntry, broken, folder, file, Repository,
  after_found, deduce_namespace_from_metadata, get_repository_url_and_ref,
}
use becloudless.Flux.Substitute.{substitute_fields}

-- `flux.HelmRelease`
pub record HelmRelease : Type 0 where
  pub kind : String
  pub metadata : Metadata
  pub chart : String
  pub version : String
  pub source_ref : NamespacedObjectKindReference
  pub values : Fields

-- what an upgrade or an install is given
pub record HelmRequest : Type 0 where
  pub name : String
  pub namespace : String
  pub version : String
  pub chart : String
  pub repo_url : String
  pub take_ownership : Bool
  pub values : Fields

-- how an upgrade ends
pub data Upgraded : Type 0 where
  upgraded : Upgraded
  -- `ErrReleaseNotFound` or `ErrNoDeployedReleases`
  nothing_deployed : Upgraded
  upgrade_failed : Upgraded

-- The Helm library: its client for a repository and the index of that, the set up of an action in a
-- namespace, the values of no options, the location and the loading of a chart, and its actions.
pub record Helm : Type 0 where
  pub opens : String → Bool
  pub reaches : String → Bool
  pub initializes : String → Bool
  pub merges_values : Bool
  pub locates : String → String → String → Bool
  pub loads : String → String → String → Bool
  pub upgrade : HelmRequest → Upgraded
  pub install : HelmRequest → Bool

pub data Deployed : Type 0 where
  by_upgrade : HelmRequest → Deployed
  by_install : HelmRequest → Deployed

module _ (helm : Helm) (envs : Dict String) (adopt_resources : Bool) where
  abbrev pub deploy : HelmRequest → Upgraded → FluxResult Deployed
  deploy request upgraded = ok (by_upgrade request)
  deploy request nothing_deployed =
      if helm.install request then ok (by_install request) else err (helm_failed "install")
  deploy request upgrade_failed = err (helm_failed "upgrade")

  unfoldable pub request_of : HelmRelease → String → HelmRequest
  unfolding substitute_fields
  request_of hr repo_url = record {
    name = hr.metadata.name;
    namespace = hr.metadata.namespace;
    version = hr.version;
    chart = hr.chart;
    repo_url = repo_url;
    take_ownership = adopt_resources;
    values = substitute_fields envs hr.values;
  }

  abbrev pub requires : Bool → String → FluxResult Bool
  requires holds step = if holds then ok holds else err (helm_failed step)

  -- the rest of `prepareAndApplyFluxHelmRelease`, from the address of the repository
  unfoldable pub apply_from : HelmRelease → String → FluxResult Deployed
  unfolding request_of
  apply_from hr repo_url = requires (helm.opens repo_url) "repository" >>= λ a.
      requires (helm.reaches repo_url) "index" >>= λ b.
      requires (helm.initializes hr.metadata.namespace) "configuration" >>= λ c.
      requires helm.merges_values "values" >>= λ d.
      requires (helm.locates repo_url hr.chart hr.version) "locate" >>= λ e.
      requires (helm.loads repo_url hr.chart hr.version) "load" >>= λ f.
      deploy (request_of hr repo_url) (helm.upgrade (request_of hr repo_url))

  module _ (decode_repository : String → Option Repository) (resources : List WalkEntry) where
    -- `prepareAndApplyFluxHelmRelease`
    unfoldable pub prepare_and_apply_flux_helm_release : HelmRelease → FluxResult Deployed
    unfolding apply_from get_repository_url_and_ref deduce_namespace_from_metadata
    prepare_and_apply_flux_helm_release hr =
        get_repository_url_and_ref decode_repository
          (deduce_namespace_from_metadata hr.source_ref hr.metadata) resources
        >>= λ (repo_url, ref). apply_from hr repo_url

    module _ (decode : String → Option HelmRelease) (object : NamespacedObjectKindReference) where
      abbrev pub is_release : HelmRelease → Bool
      is_release hr =
          hr.kind == "HelmRelease"
          && hr.metadata.name == object.name
          && hr.metadata.namespace == object.namespace

      abbrev pub apply_found : HelmRelease → List WalkEntry → FluxResult Deployed
      apply_found hr entries = prepare_and_apply_flux_helm_release hr >>= λ deployed.
          (if after_found entries then ok deployed else err walk_failed)

      -- the decoded file, with what the walk gives after it
      abbrev pub apply_decoded :
          Option HelmRelease → List WalkEntry → FluxResult Deployed → FluxResult Deployed
      apply_decoded none entries rest = err file_malformed
      apply_decoded (some hr) entries rest = if is_release hr then apply_found hr entries else rest

      -- `applyFluxHelmReleaseWithHelm`
      unfoldable pub apply_flux_helm_release_with_helm : List WalkEntry → FluxResult Deployed
      unfolding prepare_and_apply_flux_helm_release after_found
      apply_flux_helm_release_with_helm [] = err (not_found object.name object.namespace)
      apply_flux_helm_release_with_helm (broken ∷ entries) = err walk_failed
      apply_flux_helm_release_with_helm (folder ∷ entries) =
          apply_flux_helm_release_with_helm entries
      apply_flux_helm_release_with_helm (file none ∷ entries) = err file_unreadable
      apply_flux_helm_release_with_helm (file (some content) ∷ entries) =
          apply_decoded (decode content) entries (apply_flux_helm_release_with_helm entries)

-- a patch of a `flux.Kustomization`
pub record Patch : Type 0 where
  pub target : NamespacedObjectKindReference
  pub patch : String

-- `flux.Kustomization`
pub record Kustomization : Type 0 where
  pub kind : String
  pub metadata : Metadata
  pub source_ref : NamespacedObjectKindReference
  pub patches : List Patch

-- the generated kustomization: its resources, and the file and the target of each patch
pub record Generated : Type 0 where
  pub resources : List String
  pub patches : List (String × NamespacedObjectKindReference)

abbrev patch_file : ℕ → String
patch_file i = "patch-" & decimal i & ".yaml"

module _ (writable : String → Bool) (kubectl_applies : Generated → Bool) (tmp_dir : String) where
  -- the loop over the patches
  unfoldable pub write_patches :
      ℕ → List Patch → FluxResult (List (String × NamespacedObjectKindReference))
  unfolding decimal join_path
  write_patches i [] = ok []
  write_patches i (p ∷ patches) =
      (if writable (join_path tmp_dir (patch_file i))
        then ok (patch_file i)
        else err (write_failed (patch_file i)))
      >>= λ name. write_patches (suc i) patches >>= λ rest. ok ((name, p.target) ∷ rest)

  -- the end of `prepareAndApplyFluxKustomization`
  unfoldable pub apply_generated : Generated → FluxResult Generated
  unfolding join_path
  apply_generated generated =
      if writable (join_path tmp_dir "kustomization.yaml")
      then (if kubectl_applies generated then ok generated else err kubectl_failed)
      else err (write_failed (join_path tmp_dir "kustomization.yaml"))

  module _ (decode_repository : String → Option Repository) (resources : List WalkEntry) where
    -- `prepareAndApplyFluxKustomization`
    unfoldable pub prepare_and_apply_flux_kustomization : Kustomization → FluxResult Generated
    unfolding write_patches apply_generated get_repository_url_and_ref
        deduce_namespace_from_metadata
    prepare_and_apply_flux_kustomization ks =
        get_repository_url_and_ref decode_repository
          (deduce_namespace_from_metadata ks.source_ref ks.metadata) resources
        >>= λ (url, ref). write_patches 0 ks.patches >>= λ patches. apply_generated (record {
          resources = ("github.com/fluxcd/flux2/manifests/install?ref=" & ref) ∷ [];
          patches = patches;
        })

    module _ (decode : String → Option Kustomization) (object : NamespacedObjectKindReference) where
      abbrev pub is_kustomization : Kustomization → Bool
      is_kustomization ks =
          ks.kind == "Kustomization"
          && ks.metadata.name == object.name
          && ks.metadata.namespace == object.namespace

      abbrev pub apply_found_kustomization : Kustomization → List WalkEntry → FluxResult Generated
      apply_found_kustomization ks entries =
          prepare_and_apply_flux_kustomization ks >>= λ generated.
          (if after_found entries then ok generated else err walk_failed)

      -- the decoded file, with what the walk gives after it
      abbrev pub apply_decoded_kustomization :
          Option Kustomization → List WalkEntry → FluxResult Generated → FluxResult Generated
      apply_decoded_kustomization none entries rest = err file_malformed
      apply_decoded_kustomization (some ks) entries rest =
          if is_kustomization ks then apply_found_kustomization ks entries else rest

      -- `applyFluxKustomizationWithKustomize`
      unfoldable pub apply_flux_kustomization_with_kustomize : List WalkEntry → FluxResult Generated
      unfolding prepare_and_apply_flux_kustomization after_found
      apply_flux_kustomization_with_kustomize [] = err (not_found object.name object.namespace)
      apply_flux_kustomization_with_kustomize (broken ∷ entries) = err walk_failed
      apply_flux_kustomization_with_kustomize (folder ∷ entries) =
          apply_flux_kustomization_with_kustomize entries
      apply_flux_kustomization_with_kustomize (file none ∷ entries) = err file_unreadable
      apply_flux_kustomization_with_kustomize (file (some content) ∷ entries) =
          apply_decoded_kustomization (decode content) entries
            (apply_flux_kustomization_with_kustomize entries)
