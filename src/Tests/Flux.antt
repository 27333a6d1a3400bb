-- ===== src/Tests/Flux.antt =====
-- Runs and witnesses for the walks over flux resources.
use becloudless.Prelude.{String, ◌≡◌, refl, true, Option, some, List, [], ◌∷◌, ok}
use becloudless.Json.{end}
use becloudless.Flux.{
  NamespacedObjectKindReference, WalkEntry, folder, file, Repository, get_repository_url_and_ref,
  deduce_namespace_from_metadata, after_found,
}
use becloudless.Flux.Substitute.{substitute_fields}
use becloudless.Flux.Releases.{
  HelmRelease, HelmRequest, Helm, nothing_deployed, by_install, apply_from, request_of,
  prepare_and_apply_flux_helm_release, apply_flux_helm_release_with_helm,
}
use becloudless.Flux.Chosen.{
  releases_of, first_release, apply_release, apply_flux_helm_release_with_helm-first,
}

abbrev cilium : NamespacedObjectKindReference
cilium = record { kind = "HelmRelease"; name = "cilium"; namespace = "kube-system" }

abbrev any_helm : Helm
any_helm = record {
  opens = λ url. true;
  reaches = λ url. true;
  initializes = λ namespace. true;
  merges_values = true;
  locates = λ url chart version. true;
  loads = λ url chart version. true;
  upgrade = λ request. nothing_deployed;
  install = λ request. true;
}

abbrev release_named : String → HelmRelease
release_named name = record {
  kind = "HelmRelease";
  metadata = record { name = name; namespace = "kube-system" };
  chart = name;
  version = "1.2.3";
  source_ref = record { kind = "HelmRepository"; name = "charts"; namespace = "" };
  values = end;
}

abbrev repository : Repository
repository = record {
  kind = "HelmRepository";
  metadata = record { name = "charts"; namespace = "kube-system" };
  url = "https://helm.cilium.io";
  tag = "";
  branch = "";
}

abbrev as_release : String → Option HelmRelease
as_release content = some (release_named content)

abbrev as_repository : String → Option Repository
as_repository content = some repository

abbrev resources : List WalkEntry
resources = folder ∷ file (some "charts") ∷ []

abbrev releases : List WalkEntry
releases = folder ∷ file (some "coredns") ∷ file (some "cilium") ∷ []

apply_flux_helm_release_with_helm-first_example :
    apply_flux_helm_release_with_helm any_helm [] true as_repository resources as_release cilium
      releases
    ≡ apply_release
        (prepare_and_apply_flux_helm_release any_helm [] true as_repository resources)
        cilium
        (first_release cilium (release_named "coredns" ∷ release_named "cilium" ∷ []))
unfolding releases_of
apply_flux_helm_release_with_helm-first_example =
    apply_flux_helm_release_with_helm-first any_helm [] true as_repository resources as_release
      cilium releases (release_named "coredns" ∷ release_named "cilium" ∷ []) refl

abbrev installed : HelmRequest
installed = record {
  name = "cilium";
  namespace = "kube-system";
  version = "1.2.3";
  chart = "cilium";
  repo_url = "https://helm.cilium.io";
  take_ownership = true;
  values = end;
}

test_installed :
    apply_flux_helm_release_with_helm any_helm [] true as_repository resources as_release cilium
      releases
    ≡ ok (by_install installed)
unfolding apply_flux_helm_release_with_helm prepare_and_apply_flux_helm_release apply_from
    request_of get_repository_url_and_ref deduce_namespace_from_metadata after_found
    substitute_fields
test_installed = refl
