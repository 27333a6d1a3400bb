-- ===== src/Tests/Bootstrap.antt =====
-- Runs and witnesses for cli/pkg/cmd/kube/kubeBootstrap.go.
use becloudless.Prelude.{
  String, ◌≡◌, refl, true, some, [], ◌∷◌, ◌&◌, ok, contains, trim, is_slash, trim_prefix,
  trim_suffix, three_digits, decimal,
}
use becloudless.Json.{num, str, bool, obj, Fields, end, field, get}
use becloudless.Bootstrap.{Docs, nested, nested_value, find_namespace, nested_value_or}
use becloudless.Bootstrap.Values.{merge_values}
use becloudless.Bootstrap.Merged.{nested_value-merge_values, misses}
use becloudless.Bootstrap.Owned.{
  AppsHelmRelease, mark_owned, git_repository_docs, repository_namespaces,
}
use becloudless.Bootstrap.Marked.{
  is_owned_by, all_docs, git_repository_docs-is_owned_by, find_namespace-git_repository_docs,
  map_doc,
}
use becloudless.Bootstrap.Commands.{Answers, done, kustomize_target}
use becloudless.Bootstrap.Plan.{RenderedApp, GitKustomization, Plan}
use becloudless.Bootstrap.Apply.{apply_plan, apply_rendered_apps}
use becloudless.Bootstrap.Ordered.{in_stages, apply_rendered_apps-in_stages}
use becloudless.Bootstrap.Complete.{
  released, kustomized, targets, targets_of, all_have_url, apply_plan_complete, manifests,
  manifests_of, manifest_of, all_written,
}
use becloudless.Bootstrap.Remote.{server_url, join_host_port}

test_decimal : three_digits 7 & decimal 1205 ≡ "0071205"
unfolding three_digits
test_decimal = refl

test_trim : trim is_slash (trim_prefix "./config/crd/" "./") ≡ "config/crd"
unfolding trim trim_prefix
test_trim = refl

test_suffix : trim_suffix "https://a.b/" "/" ≡ "https://a.b"
unfolding trim_suffix
test_suffix = refl

abbrev chart_values : Fields
chart_values =
    field "cilium" (obj (field "enabled" (bool true) (field "replicas" (num "2") end))) end

abbrev cluster_values : Fields
cluster_values = field "cilium" (obj (field "replicas" (num "1") end)) end

nested_value-merge_values_example :
    nested_value (merge_values chart_values cluster_values) ("cilium" ∷ "replicas" ∷ [])
    ≡ some (num "1")
unfolding misses nested merge_values get
nested_value-merge_values_example =
    nested_value-merge_values chart_values cluster_values ("cilium" ∷ "replicas" ∷ [])

abbrev resource : String → String → String → Fields → Fields
resource kind name namespace rest =
    field "kind" (str kind) (
      field "metadata" (obj (field "name" (str name) (field "namespace" (str namespace) end))) rest)

abbrev git_spec : Fields
git_spec =
    field "spec"
      (obj (
        field "url" (str "https://github.com/a/b/")
          (field "ref" (obj (field "tag" (str "v1") end)) end)))
      end

abbrev ks_spec : Fields
ks_spec =
    field "spec"
      (obj (
        field "path" (str "./config/crd") (
          field "sourceRef"
            (obj (field "kind" (str "GitRepository") (field "name" (str "crds") end))) end)))
      end

abbrev hr_spec : Fields
hr_spec =
    field "spec"
      (obj (
        field "chart"
          (obj (
            field "spec"
              (obj (field "sourceRef" (obj (field "kind" (str "HelmRepository") end)) end)) end))
          end))
      end

abbrev apps_docs : Docs
apps_docs =
    resource "HelmRelease" "app-cilium" "apps" hr_spec
    ∷ resource "GitRepository" "crds" "infra" git_spec
    ∷ resource "Namespace" "infra" "" end
    ∷ []

abbrev apps_release : AppsHelmRelease
apps_release = record {
  metadata = record { name = "apps"; namespace = "apps" };
  service_account_name = "flux-apps";
  values = end;
}

git_repository_docs-is_owned_by_example :
    all_docs
      (is_owned_by (record { name = "apps"; namespace = "apps" }))
      (git_repository_docs apps_docs apps_release)
    ≡ true
git_repository_docs-is_owned_by_example = git_repository_docs-is_owned_by apps_docs apps_release

find_namespace-git_repository_docs_example :
    find_namespace (git_repository_docs apps_docs apps_release) "infra"
    ≡ map_doc
        (mark_owned (record { name = "apps"; namespace = "apps" }))
        (find_namespace apps_docs "infra")
unfolding repository_namespaces contains nested get
find_namespace-git_repository_docs_example =
    find_namespace-git_repository_docs apps_docs apps_release "infra" refl

abbrev cilium : RenderedApp
cilium = record {
  name = "cilium";
  docs =
      resource "HelmRelease" "cilium" "kube-system" hr_spec
      ∷ resource "GitRepository" "crds" "kube-system" git_spec
      ∷ resource "Kustomization" "crds" "kube-system" ks_spec
      ∷ resource "Namespace" "kube-system" "" end
      ∷ [];
}

-- every program succeeds
abbrev all_succeed : Answers
all_succeed calls call = some ""

apply_rendered_apps-in_stages_example :
    in_stages (
      (apply_rendered_apps all_succeed
        (λ doc. some "")
        (λ path. true)
        "/tmp/bcl"
        (cilium ∷ [])
        []).1)
    ≡ true
apply_rendered_apps-in_stages_example =
    apply_rendered_apps-in_stages all_succeed (λ doc. some "") (λ path. true) "/tmp/bcl"
      (cilium ∷ [])

abbrev crds : GitKustomization
crds = record {
  app = "cilium";
  kustomize = resource "Kustomization" "crds" "kube-system" ks_spec;
  repository = resource "GitRepository" "crds" "kube-system" git_spec;
}

abbrev small_plan : Plan
small_plan = record {
  namespaces = resource "Namespace" "kube-system" "" end ∷ [];
  git_kustomizations = crds ∷ [];
  helm_releases =
      record {
        folder = "/tmp/bcl/cilium";
        ref = record { kind = "HelmRelease"; name = "cilium"; namespace = "kube-system" };
      }
      ∷ [];
  kustomizations = [];
  files = [];
}

apply_plan_complete_example :
    ((apply_plan all_succeed (λ doc. some "") small_plan []).0 ≡ ok done)
    × (manifests (apply_plan all_succeed (λ doc. some "") small_plan []).1
        ≡ manifests_of (λ doc. some "") small_plan.namespaces)
    × (released (apply_plan all_succeed (λ doc. some "") small_plan []).1
        ≡ small_plan.helm_releases)
    × (kustomized (apply_plan all_succeed (λ doc. some "") small_plan []).1 ≡ [])
    × (targets (apply_plan all_succeed (λ doc. some "") small_plan []).1 ≡ targets_of (crds ∷ []))
unfolding all_written all_have_url nested get
apply_plan_complete_example =
    apply_plan_complete all_succeed (λ doc. some "") small_plan (λ calls call. ("", refl)) refl refl

test_manifest : manifests_of (λ doc. some "a: b\n") small_plan.namespaces ≡ "---\na: b\n" ∷ []
unfolding manifest_of
test_manifest = refl

test_targets : targets_of (crds ∷ []) ≡ "https://github.com/a/b//config/crd?ref=v1" ∷ []
unfolding targets_of kustomize_target nested get nested_value_or
test_targets = refl

test_server : server_url "fd00::1" ≡ "https://[fd00::1]:8443"
unfolding join_host_port
test_server = refl
