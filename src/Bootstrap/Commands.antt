-- ===== src/Bootstrap/Commands.antt =====
-- The programs that kubeBootstrap.go runs, as calls on a record of the calls before: how a call ends
-- is a parameter, which may look at that record. The last call comes first in it.
use Prim.Native.String.{compare}
use text.Mathlib.Text.{is_le}
use becloudless.Prelude.{
  String, true, false, Option, List, [], ◌∷◌, ◌&◌, ◌==◌, if◌then◌else◌, ok, err, or_fail, ◌>>=◌,
  has_prefix, trim_prefix, trim_suffix, trim, is_slash, trim_space, split_on, join, Dict,
}
use becloudless.Json.{Value, null, bool, num, str, obj, arr, Fields, end, field, Items, nil, cons}
use becloudless.Flux.{NamespacedObjectKindReference}
use becloudless.Bootstrap.{
  Docs, Result, command_failed, marshal_failed, repository_without_url, nested_text,
  nested_value_or,
}

-- a program that is run
pub data Call : Type 0 where
  -- kubectl with the kubeconfig of the cluster: its arguments and its standard input
  kubectl : List String → String → Call
  -- `applyFluxHelmReleaseWithHelm` on the resources of a folder, with no variables and with the
  -- `adoptResources` of the command, which is the same for all calls
  helm_release : String → NamespacedObjectKindReference → Call
  -- `applyFluxKustomizationWithKustomize` on the resources of a folder
  flux_kustomization : String → NamespacedObjectKindReference → Call

-- the output of a call that succeeds
abbrev pub Answers : Type 0
Answers = List Call → Call → Option String

-- what a function that runs programs gives back, with the record of the calls
abbrev pub Run : Type 0 → Type 0
Run A = Result A × List Call

pub data Done : Type 0 where
  done : Done

infixl 5 ◌then◌
-- `if err := ...; err != nil { return err }`
abbrev pub ◌then◌ : {A B : Type 0} → Run A → (A → List Call → Run B) → Run B
(ok a, calls) then f = f a calls
(err e, calls) then f = (err e, calls)

abbrev pub words_of : Call → List String
words_of (kubectl args input) = args
words_of (helm_release folder ref) = "helm" ∷ ref.name ∷ []
words_of (flux_kustomization folder ref) = "kustomize" ∷ ref.name ∷ []

unfoldable pub end_run : Run String → Run Done
end_run (ok output, calls) = (ok done, calls)
end_run (err e, calls) = (err e, calls)

module _ (marshal : Fields → Option String) where
  -- the loop that fills `content`
  unfoldable pub content_of : Docs → Result String
  content_of [] = ok ""
  content_of (doc ∷ docs) = or_fail marshal_failed (marshal doc) >>= λ out.
      content_of docs >>= λ rest. ok ("---\n" & out & rest)

module _ (answers : Answers) where
  unfoldable pub run : Call → List Call → Run String
  run call calls = (or_fail (command_failed (words_of call)) (answers calls call), call ∷ calls)

  -- `waitFluxCRDs`
  unfoldable pub wait_flux_crds : List Call → Run Done
  unfolding run end_run
  wait_flux_crds calls = end_run (
      run
        (kubectl
          ("wait" ∷ "--for=condition=Established" ∷ "--timeout=120s"
            ∷ "crd/gitrepositories.source.toolkit.fluxcd.io"
            ∷ "crd/helmreleases.helm.toolkit.fluxcd.io" ∷ [])
          "")
        calls)

  -- `applyResourcesFile`
  unfoldable pub apply_resources_file : String → List Call → Run Done
  unfolding run end_run
  apply_resources_file file calls = end_run (run (kubectl ("apply" ∷ "-f" ∷ file ∷ []) "") calls)

  module _ (marshal : Fields → Option String) where
    abbrev pub apply_content : Result String → List Call → Run Done
    apply_content (err e) calls = (err e, calls)
    apply_content (ok content) calls =
        end_run (run (kubectl ("apply" ∷ "-f" ∷ "-" ∷ []) content) calls)

    -- `applyDocs`, and `applyNamespaces`
    unfoldable pub apply_docs : Docs → List Call → Run Done
    unfolding content_of
    apply_docs [] calls = (ok done, calls)
    apply_docs (doc ∷ docs) calls = apply_content (content_of marshal (doc ∷ docs)) calls

abbrev insert_entry : String → String → Dict String → Dict String
insert_entry key text [] = (key, text) ∷ []
insert_entry key text ((k, t) ∷ entries) =
    if is_le (compare key k)
    then (key, text) ∷ (k, t) ∷ entries
    else (k, t) ∷ insert_entry key text entries

abbrev entry_texts : Dict String → List String
entry_texts [] = []
entry_texts ((k, t) ∷ entries) = (k & ":" & t) ∷ entry_texts entries

unfoldable mutual
  -- `fmt.Sprint(value)`, where a map is printed in the order of its keys
  pub sprint : Value → String
  sprint null = "<nil>"
  sprint (bool true) = "true"
  sprint (bool false) = "false"
  sprint (num n) = n
  sprint (str s) = s
  sprint (obj m) = "map[" & join " " (entry_texts (sprint_entries m)) & "]"
  sprint (arr l) = "[" & join " " (sprint_items l) & "]"

  sprint_entries : Fields → Dict String
  sprint_entries end = []
  sprint_entries (field k v m) = insert_entry k (sprint v) (sprint_entries m)

  sprint_items : Items → List String
  sprint_items nil = []
  sprint_items (cons v l) = sprint v ∷ sprint_items l

abbrev pub with_subpath : String → String → String
with_subpath url path = if path == "" then url else if path == "." then url else url & "//" & path

abbrev pub with_ref : String → String → String
with_ref target ref = if ref == "" then target else target & "?ref=" & ref

abbrev pub source_ref : Fields → String
source_ref repository =
    let tag = nested_text repository ("spec" ∷ "ref" ∷ "tag" ∷ []) in
    if tag == "" then nested_text repository ("spec" ∷ "ref" ∷ "branch" ∷ []) else tag

-- `target` of `applyGitKustomization`
unfoldable pub kustomize_target : String → Fields → Fields → String
unfolding trim trim_suffix trim_prefix sprint
kustomize_target url ks repository =
    with_ref
      (with_subpath (trim_suffix url "/") (
        trim is_slash
          (trim_prefix (sprint (nested_value_or ks (str "") ("spec" ∷ "path" ∷ []))) "./")))
      (source_ref repository)

-- `crds` of `applyGitKustomization`
unfoldable pub crds_of : List String → List String
unfolding has_prefix trim_space
crds_of [] = []
crds_of (line ∷ lines) =
    let rest = crds_of lines in
    if has_prefix line "customresourcedefinition" then trim_space line ∷ rest else rest

module _ (answers : Answers) where
  unfoldable pub wait_crds : List String → List Call → Run Done
  unfolding run end_run
  wait_crds [] calls = (ok done, calls)
  wait_crds (crd ∷ crds) calls = end_run (
      run answers
        (kubectl ("wait" ∷ "--for=condition=Established" ∷ "--timeout=120s" ∷ crd ∷ crds) "") calls)

  -- `applyGitKustomization`
  unfoldable pub apply_git_kustomization : Fields → Fields → List Call → Run Done
  unfolding run wait_crds crds_of kustomize_target split_on
  apply_git_kustomization ks repository calls =
      let url = nested_text repository ("spec" ∷ "url" ∷ []) in
      if url == ""
      then (err repository_without_url, calls)
      else (run answers
            (kubectl
              ("apply"
                ∷ "--server-side"
                ∷ "--force-conflicts"
                ∷ "-o"
                ∷ "name"
                ∷ "-k"
                ∷ kustomize_target url ks repository
                ∷ [])
              "")
            calls
          then λ output more. wait_crds (crds_of (split_on "\n" output)) more)
