-- ===== src/Flux/Chosen.antt =====
-- Which resource of a folder the walks of cli/pkg/cmd/kube/kubeBootstrapOld.go apply.
use becloudless.Prelude.{
  String, Bool, true, ◌&&◌, ◌==◌, Option, none, some, List, [], ◌∷◌, Dict, ◌≡◌, refl, ap,
  if◌then◌else◌, ok, err, ◌>>=◌, Option-cases, Bool-cases, inl, inr, subst,
}
use becloudless.Flux.{
  NamespacedObjectKindReference, FluxResult, not_found, WalkEntry, broken, folder, file, Repository,
  after_found, walk_failed,
}
use becloudless.Flux.Releases.{
  HelmRelease, Helm, Deployed, is_release, prepare_and_apply_flux_helm_release,
  apply_flux_helm_release_with_helm,
}

abbrev or_nil : Option (List HelmRelease) → List HelmRelease
or_nil none = []
or_nil (some hrs) = hrs

module _ (decode : String → Option HelmRelease) where
  abbrev after_release : Option HelmRelease → Option (List HelmRelease) → Option (List HelmRelease)
  after_release (some hr) (some hrs) = some (hr ∷ hrs)
  after_release _ _ = none

  -- The releases of a folder, if each of its files can be read and decoded.
  unfoldable pub releases_of : List WalkEntry → Option (List HelmRelease)
  releases_of [] = some []
  releases_of (broken ∷ entries) = none
  releases_of (folder ∷ entries) = releases_of entries
  releases_of (file none ∷ entries) = none
  releases_of (file (some content) ∷ entries) = after_release (decode content) (releases_of entries)

  after_found-releases_of :
      (entries : List WalkEntry) (hrs : List HelmRelease)
      → releases_of entries ≡ some hrs
      → after_found entries ≡ true
  unfolding releases_of after_found
  after_found-releases_of [] hrs h = refl
  after_found-releases_of (broken ∷ entries) hrs h = cc
  after_found-releases_of (folder ∷ entries) hrs h = refl
  after_found-releases_of (file content ∷ entries) hrs h = refl

-- The first release of the kind, the name and the namespace that are asked for.
unfoldable pub first_release : NamespacedObjectKindReference → List HelmRelease → Option HelmRelease
first_release object [] = none
first_release object (hr ∷ hrs) =
    let rest = first_release object hrs in
    if hr.kind == "HelmRelease"
      && hr.metadata.name == object.name
      && hr.metadata.namespace == object.namespace
    then some hr
    else rest

-- What becomes of the release that was found.
abbrev pub apply_release :
    (HelmRelease → FluxResult Deployed)
    → NamespacedObjectKindReference
    → Option HelmRelease
    → FluxResult Deployed
apply_release apply object none = err (not_found object.name object.namespace)
apply_release apply object (some hr) = apply hr

ends_as :
    (r : FluxResult Deployed) (b : Bool)
    → b ≡ true
    → (r >>= λ deployed. (if b then ok deployed else err walk_failed)) ≡ r
ends_as (err e) b h = refl
ends_as (ok deployed) b h = rw h refl

-- When every file of the folder can be read and decoded, the walk applies the first helm release with
-- the kind, the name and the namespace that are asked for and ends as that does, whatever follows it,
-- and it fails with `not_found` when the folder has no such release.
pub apply_flux_helm_release_with_helm-first :
    (helm : Helm) (envs : Dict String) (adopt_resources : Bool)
    (decode_repository : String → Option Repository) (resources : List WalkEntry)
    (decode : String → Option HelmRelease) (object : NamespacedObjectKindReference)
    (entries : List WalkEntry) (hrs : List HelmRelease)
    → releases_of decode entries ≡ some hrs
    → apply_flux_helm_release_with_helm helm envs adopt_resources decode_repository resources decode
        object entries
      ≡ apply_release
          (prepare_and_apply_flux_helm_release helm envs adopt_resources decode_repository
            resources)
          object
          (first_release object hrs)
unfolding apply_flux_helm_release_with_helm releases_of first_release
apply_flux_helm_release_with_helm-first helm envs adopt decode_repository resources decode object []
      hrs h =
    ap
      (λ x.
        apply_release
          (prepare_and_apply_flux_helm_release helm envs adopt decode_repository resources) object
          (first_release object (or_nil x)))
      h
apply_flux_helm_release_with_helm-first helm envs adopt decode_repository resources decode object
      (broken ∷ entries) hrs h =
    cc
apply_flux_helm_release_with_helm-first helm envs adopt decode_repository resources decode object
      (folder ∷ entries) hrs h =
    apply_flux_helm_release_with_helm-first helm envs adopt decode_repository resources decode
      object entries hrs h
apply_flux_helm_release_with_helm-first helm envs adopt decode_repository resources decode object
      (file none ∷ entries) hrs h =
    cc
apply_flux_helm_release_with_helm-first helm envs adopt decode_repository resources decode object
      (file (some content) ∷ entries) hrs h =
    elim (Option-cases (decode content)) [
      | inl e ↦ cc (rw e at h)
      | inr (hr, e) ↦ elim (Option-cases (releases_of decode entries)) [
        | inl f ↦ cc (rw (e, f) at h)
        | inr (rest, f) ↦
            subst
              (λ x.
                apply_flux_helm_release_with_helm helm envs adopt decode_repository resources decode
                  object (file (some content) ∷ entries)
                ≡ apply_release
                    (prepare_and_apply_flux_helm_release helm envs adopt decode_repository
                      resources)
                    object (first_release object x))
              (ap or_nil (rw (e, f) at h))
              (elim (Bool-cases
                (is_release helm envs adopt decode_repository resources decode object hr)) [
                  | inl w ↦
                      rw (e, w)
                        (ends_as
                          (prepare_and_apply_flux_helm_release helm envs adopt decode_repository
                            resources hr)
                          (after_found entries) (after_found-releases_of decode entries rest f))
                  | inr w ↦
                      rw (e, w)
                        (apply_flux_helm_release_with_helm-first helm envs adopt decode_repository
                          resources decode object entries rest f)
                ])
      ]
    ]
