-- ===== src/Flux.antt =====
-- cli/pkg/flux/utils.go, and the walks over a folder of flux resources of
-- cli/pkg/cmd/kube/kubeBootstrapOld.go. A folder is what `filepath.WalkDir` reports of it, in order.
pub mod Substitute
pub mod Releases
pub mod Chosen
use becloudless.Prelude.{
  String, Bool, true, false, ◌&&◌, ◌||◌, ◌==◌, Option, none, some, List, [], ◌∷◌, if◌then◌else◌,
  Outcome, ok, err,
}

-- `flux.Metadata`
pub record Metadata : Type 0 where
  pub name : String
  pub namespace : String

pub record NamespacedObjectKindReference : Type 0 where
  pub kind : String
  pub name : String
  pub namespace : String

pub data FluxError : Type 0 where
  walk_failed : FluxError
  file_unreadable : FluxError
  file_malformed : FluxError
  not_found : String → String → FluxError
  helm_failed : String → FluxError
  write_failed : String → FluxError
  kubectl_failed : FluxError

abbrev pub FluxResult : Type 0 → Type 0
FluxResult A = Outcome FluxError A

-- what the walk calls its function with
pub data WalkEntry : Type 0 where
  broken : WalkEntry
  folder : WalkEntry
  -- a file, with its content if it can be read
  file : Option String → WalkEntry

-- `DeduceNamespaceFromMetadata`
unfoldable pub deduce_namespace_from_metadata :
    NamespacedObjectKindReference → Metadata → NamespacedObjectKindReference
deduce_namespace_from_metadata n metadata = record n {
  namespace = if n.namespace == "" then metadata.namespace else n.namespace;
}

-- What `GetRepositoryUrlAndRef` decodes.
pub record Repository : Type 0 where
  pub kind : String
  pub metadata : Metadata
  pub url : String
  pub tag : String
  pub branch : String

abbrev pub is_wanted_repository : NamespacedObjectKindReference → Repository → Bool
is_wanted_repository object repo =
    (repo.kind == "OCIRepository" || repo.kind == "HelmRepository")
    && repo.metadata.name == object.name
    && repo.metadata.namespace == object.namespace

abbrev pub repository_ref : Repository → String
repository_ref repo = if repo.branch == "" then repo.tag else repo.branch

-- The walk after its function found what it looks for: only the next call matters, which stops the
-- walk unless the walk itself has an error.
unfoldable pub after_found : List WalkEntry → Bool
after_found [] = true
after_found (broken ∷ entries) = false
after_found (folder ∷ entries) = true
after_found (file content ∷ entries) = true

module _ (decode : String → Option Repository) (object : NamespacedObjectKindReference) where
  abbrev pub found_repository : Repository → List WalkEntry → FluxResult (String × String)
  found_repository repo entries =
      if after_found entries then ok (repo.url, repository_ref repo) else err walk_failed

  -- `GetRepositoryUrlAndRef`
  unfoldable pub get_repository_url_and_ref : List WalkEntry → FluxResult (String × String)
  unfolding after_found
  get_repository_url_and_ref [] = err (not_found object.name object.namespace)
  get_repository_url_and_ref (broken ∷ entries) = err walk_failed
  get_repository_url_and_ref (folder ∷ entries) = get_repository_url_and_ref entries
  get_repository_url_and_ref (file none ∷ entries) = err file_unreadable
  get_repository_url_and_ref (file (some content) ∷ entries) =
      let rest = get_repository_url_and_ref entries in
      elim (decode content) [
        | none ↦ err file_malformed
        | some repo ↦
            if is_wanted_repository object repo then found_repository repo entries else rest
      ]
