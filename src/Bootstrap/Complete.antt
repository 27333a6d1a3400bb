-- ===== src/Bootstrap/Complete.antt =====
-- What `applyRenderedApps` of kubeBootstrap.go applies when no program fails.
use mathlib.Core.List.{append_assoc, append-nil}
use becloudless.Prelude.{
  String, Bool, true, false, ◌&&◌, ◌==◌, Option, some, List, [], ◌∷◌, ◌++◌, ◌≡◌, refl, sym, ap, ◌∙◌,
  arith, if◌then◌else◌, ok, err, split_on, none, ◌&◌, inl, inr, Option-cases,
}
use becloudless.Json.{Fields}
use becloudless.Bootstrap.{Docs, nested_text}
use becloudless.Bootstrap.Commands.{
  Call, kubectl, helm_release, flux_kustomization, Answers, Run, Done, done, ◌then◌, run, end_run,
  content_of, apply_docs, wait_crds, apply_git_kustomization, crds_of, kustomize_target,
}
use becloudless.Bootstrap.Plan.{FluxResource, GitKustomization, Plan}
use becloudless.Bootstrap.Apply.{
  apply_git_kustomizations, apply_helm_releases, apply_kustomizations, apply_plan,
}

abbrev is_some_text : Option String → Bool
is_some_text none = false
is_some_text (some text) = true

abbrev text_or_empty : Option String → String
text_or_empty none = ""
text_or_empty (some text) = text

-- The resources given to helm, the first one first.
unfoldable pub released : List Call → List FluxResource
released [] = []
released (kubectl args input ∷ calls) = released calls
released (helm_release folder ref ∷ calls) =
    released calls ++ record { folder = folder; ref = ref } ∷ []
released (flux_kustomization folder ref ∷ calls) = released calls

-- The resources given to kustomize, the first one first.
unfoldable pub kustomized : List Call → List FluxResource
kustomized [] = []
kustomized (kubectl args input ∷ calls) = kustomized calls
kustomized (helm_release folder ref ∷ calls) = kustomized calls
kustomized (flux_kustomization folder ref ∷ calls) =
    kustomized calls ++ record { folder = folder; ref = ref } ∷ []

-- The target of a server side apply.
unfoldable pub applied : List String → List String
applied (a ∷ b ∷ c ∷ d ∷ e ∷ f ∷ target ∷ []) = if b == "--server-side" then target ∷ [] else []
applied _ = []

-- The targets given to kubectl, the first one first.
unfoldable pub targets : List Call → List String
unfolding applied
targets [] = []
targets (kubectl args input ∷ calls) = targets calls ++ applied args
targets (helm_release folder ref ∷ calls) = targets calls
targets (flux_kustomization folder ref ∷ calls) = targets calls

-- The target of each kustomization of a git repository.
unfoldable pub targets_of : List GitKustomization → List String
unfolding kustomize_target
targets_of [] = []
targets_of (ks ∷ list) =
    kustomize_target (nested_text ks.repository ("spec" ∷ "url" ∷ [])) ks.kustomize ks.repository
    ∷ targets_of list

-- What `kubectl apply -f -` reads.
unfoldable pub read_by : List String → String → List String
read_by (a ∷ b ∷ c ∷ []) input = if a == "apply" && b == "-f" && c == "-" then input ∷ [] else []
read_by _ input = []

-- The manifests given to kubectl, the first one first.
unfoldable pub manifests : List Call → List String
unfolding read_by
manifests [] = []
manifests (kubectl args input ∷ calls) = manifests calls ++ read_by args input
manifests (helm_release folder ref ∷ calls) = manifests calls
manifests (flux_kustomization folder ref ∷ calls) = manifests calls

-- Every resource can be written.
unfoldable pub all_written : (Fields → Option String) → Docs → Bool
all_written marshal [] = true
all_written marshal (doc ∷ docs) = is_some_text (marshal doc) && all_written marshal docs

-- The manifest with all the resources.
unfoldable pub manifest_of : (Fields → Option String) → Docs → String
manifest_of marshal [] = ""
manifest_of marshal (doc ∷ docs) = "---\n" & text_or_empty (marshal doc) & manifest_of marshal docs

-- The manifest of the namespaces, if there are some.
abbrev pub manifests_of : (Fields → Option String) → Docs → List String
manifests_of marshal [] = []
manifests_of marshal (doc ∷ docs) = manifest_of marshal (doc ∷ docs) ∷ []

-- Every repository has an address.
unfoldable pub all_have_url : List GitKustomization → Bool
all_have_url [] = true
all_have_url (ks ∷ list) =
    (if nested_text ks.repository ("spec" ∷ "url" ∷ []) == "" then false else true)
    && all_have_url list

-- A run that succeeds, and what its calls were given.
data Ends (run : Run Done) (hrs ks : List FluxResource) (ts ds : List String) : Type 0 where
  ends :
      run.0 ≡ ok done
      → released run.1 ≡ hrs
      → kustomized run.1 ≡ ks
      → targets run.1 ≡ ts
      → manifests run.1 ≡ ds
      → Ends run hrs ks ts ds

then-Ends :
    {hrs hrs' ks ks' : List FluxResource} {ts ts' ds ds' : List String} (first : Run Done)
    (f : Done → List Call → Run Done)
    → Ends first hrs ks ts ds
    → ((a : Done) (calls : List Call)
        → released calls ≡ hrs
        → kustomized calls ≡ ks
        → targets calls ≡ ts
        → manifests calls ≡ ds
        → Ends (f a calls) hrs' ks' ts' ds')
    → Ends (first then f) hrs' ks' ts' ds'
then-Ends (ok a, calls) f (ends o r k t d) next = next a calls r k t d
then-Ends (err e, calls) f (ends o r k t d) next = cc

Ends-of :
    {run : Run Done} {hrs hrs' ks ks' : List FluxResource} {ts ts' ds ds' : List String}
    → Ends run hrs ks ts ds
    → hrs ≡ hrs'
    → ks ≡ ks'
    → ts ≡ ts'
    → ds ≡ ds'
    → Ends run hrs' ks' ts' ds'
Ends-of (ends o r k t d) a b c e = ends o (r ∙ a) (k ∙ b) (t ∙ c) (d ∙ e)

applied-wait :
    (crd : String) (crds : List String)
    → applied ("wait" ∷ "--for=condition=Established" ∷ "--timeout=120s" ∷ crd ∷ crds) ≡ []
unfolding applied
applied-wait crd [] = refl
applied-wait crd (a ∷ []) = refl
applied-wait crd (a ∷ b ∷ []) = refl
applied-wait crd (a ∷ b ∷ c ∷ []) = refl
applied-wait crd (a ∷ b ∷ c ∷ d ∷ crds) = refl

content_of-manifest :
    (marshal : Fields → Option String) (docs : Docs)
    → all_written marshal docs ≡ true
    → content_of marshal docs ≡ ok (manifest_of marshal docs)
unfolding content_of all_written manifest_of
content_of-manifest marshal [] h = refl
content_of-manifest marshal (doc ∷ docs) h = elim (Option-cases (marshal doc)) [
  | inl e ↦ cc (rw e at h)
  | inr (text, e) ↦ rw (e, content_of-manifest marshal docs (rw e at h)) refl
]

read_by-wait :
    (crd : String) (crds : List String)
    → read_by ("wait" ∷ "--for=condition=Established" ∷ "--timeout=120s" ∷ crd ∷ crds) "" ≡ []
unfolding read_by
read_by-wait crd crds = refl

module _ (answers : Answers)
    (succeeds : (calls : List Call) (call : Call)
      → (output : String) × (answers calls call ≡ some output)) where
  run-ok :
      (call : Call) (calls : List Call)
      → run answers call calls ≡ (ok ((succeeds calls call).0), call ∷ calls)
  unfolding run
  run-ok call calls = rw ((succeeds calls call).1)

  helm-Ends :
      (list : List FluxResource) (calls : List Call)
      → Ends
          (apply_helm_releases answers list calls)
          (released calls ++ list)
          (kustomized calls)
          (targets calls)
          (manifests calls)
  unfolding apply_helm_releases released kustomized targets manifests
  helm-Ends [] calls = ends refl (sym (append-nil (released calls))) refl refl refl
  helm-Ends (hr ∷ list) calls = rw (run-ok (helm_release hr.folder hr.ref) calls) (
      Ends-of (helm-Ends list (helm_release hr.folder hr.ref ∷ calls))
        (append_assoc (released calls) (hr ∷ []) list) refl refl refl)

  kustomize-Ends :
      (list : List FluxResource) (calls : List Call)
      → Ends
          (apply_kustomizations answers list calls)
          (released calls)
          (kustomized calls ++ list)
          (targets calls)
          (manifests calls)
  unfolding apply_kustomizations released kustomized targets manifests
  kustomize-Ends [] calls = ends refl refl (sym (append-nil (kustomized calls))) refl refl
  kustomize-Ends (ks ∷ list) calls = rw (run-ok (flux_kustomization ks.folder ks.ref) calls) (
      Ends-of (kustomize-Ends list (flux_kustomization ks.folder ks.ref ∷ calls)) refl
        (append_assoc (kustomized calls) (ks ∷ []) list) refl refl)

  docs-Ends :
      (marshal : Fields → Option String) (docs : Docs)
      → all_written marshal docs ≡ true
      → Ends (apply_docs answers marshal docs []) [] [] [] (manifests_of marshal docs)
  unfolding apply_docs released kustomized targets applied manifests read_by end_run
  docs-Ends marshal [] h = ends refl refl refl refl refl
  docs-Ends marshal (doc ∷ docs) h =
      let content = manifest_of marshal (doc ∷ docs) in
      rw
        (
          content_of-manifest marshal (doc ∷ docs) h,
          run-ok (kubectl ("apply" ∷ "-f" ∷ "-" ∷ []) content) [],
        )
        (ends refl refl refl refl refl)

  wait-Ends :
      (crds : List String) (calls : List Call)
      → Ends
          (wait_crds answers crds calls)
          (released calls)
          (kustomized calls)
          (targets calls)
          (manifests calls)
  unfolding wait_crds released kustomized targets applied manifests read_by end_run
  wait-Ends [] calls = ends refl refl refl refl refl
  wait-Ends (crd ∷ crds) calls =
      rw
        (run-ok
          (kubectl ("wait" ∷ "--for=condition=Established" ∷ "--timeout=120s" ∷ crd ∷ crds) "")
          calls)
        (ends refl refl refl
          (ap (λ x. targets calls ++ x) (applied-wait crd crds) ∙ append-nil (targets calls))
          (append-nil (manifests calls)))

  git_one-Ends :
      (ks repository : Fields) (calls : List Call)
      → (nested_text repository ("spec" ∷ "url" ∷ []) == "") ≡ false
      → Ends
          (apply_git_kustomization answers ks repository calls)
          (released calls)
          (kustomized calls)
          (targets calls
            ++ kustomize_target (nested_text repository ("spec" ∷ "url" ∷ [])) ks repository ∷ [])
          (manifests calls)
  unfolding apply_git_kustomization released kustomized targets applied manifests read_by
  git_one-Ends ks repository calls h =
      let call =
        kubectl
          ("apply"
            ∷ "--server-side"
            ∷ "--force-conflicts"
            ∷ "-o"
            ∷ "name"
            ∷ "-k"
            ∷ kustomize_target (nested_text repository ("spec" ∷ "url" ∷ [])) ks repository
            ∷ [])
          "" in
      rw (h, run-ok call calls)
        (Ends-of (wait-Ends (crds_of (split_on "\n" ((succeeds calls call).0))) (call ∷ calls)) refl
          refl refl (append-nil (manifests calls)))

  git-Ends :
      (list : List GitKustomization) (calls : List Call)
      → all_have_url list ≡ true
      → Ends
          (apply_git_kustomizations answers list calls)
          (released calls)
          (kustomized calls)
          (targets calls ++ targets_of list)
          (manifests calls)
  unfolding apply_git_kustomizations targets_of all_have_url
  git-Ends [] calls h = ends refl refl refl (sym (append-nil (targets calls))) refl
  git-Ends (ks ∷ list) calls h =
      let target =
        kustomize_target (nested_text ks.repository ("spec" ∷ "url" ∷ [])) ks.kustomize
          ks.repository in
      then-Ends (apply_git_kustomization answers ks.kustomize ks.repository calls)
        (λ ended more. apply_git_kustomizations answers list more)
        (git_one-Ends ks.kustomize ks.repository calls (ground arith))
        (λ a more r k t d.
          Ends-of (git-Ends list more (ground arith)) r k
            (ap (λ x. x ++ targets_of list) t
              ∙ append_assoc (targets calls) (target ∷ []) (targets_of list))
            d)

  plan-Ends :
      (marshal : Fields → Option String) (plan : Plan)
      → all_written marshal plan.namespaces ≡ true
      → all_have_url plan.git_kustomizations ≡ true
      → Ends
          (apply_plan answers marshal plan [])
          plan.helm_releases
          plan.kustomizations
          (targets_of plan.git_kustomizations)
          (manifests_of marshal plan.namespaces)
  unfolding apply_plan
  plan-Ends marshal plan h u =
      then-Ends (apply_docs answers marshal plan.namespaces [])
        (λ a after. apply_git_kustomizations answers plan.git_kustomizations after then λ b more.
          apply_helm_releases answers plan.helm_releases more then λ c most.
          apply_kustomizations answers plan.kustomizations most)
        (docs-Ends marshal plan.namespaces h)
        (λ a after r k t d.
          then-Ends (apply_git_kustomizations answers plan.git_kustomizations after)
            (λ b more. apply_helm_releases answers plan.helm_releases more then λ c most.
              apply_kustomizations answers plan.kustomizations most)
            (Ends-of (git-Ends plan.git_kustomizations after u) r k
              (ap (λ x. x ++ targets_of plan.git_kustomizations) t) d)
            (λ b more r' k' t' d'.
              then-Ends (apply_helm_releases answers plan.helm_releases more)
                (λ c most. apply_kustomizations answers plan.kustomizations most)
                (Ends-of (helm-Ends plan.helm_releases more) (ap (λ x. x ++ plan.helm_releases) r')
                  k' t' d')
                (λ c most r'' k'' t'' d''.
                  Ends-of (kustomize-Ends plan.kustomizations most) r''
                    (ap (λ x. x ++ plan.kustomizations) k'') t'' d'')))

Ends-parts :
    {run : Run Done} {hrs ks : List FluxResource} {ts ds : List String}
    → Ends run hrs ks ts ds
    → (run.0 ≡ ok done)
      × (manifests run.1 ≡ ds)
      × (released run.1 ≡ hrs)
      × (kustomized run.1 ≡ ks)
      × (targets run.1 ≡ ts)
Ends-parts (ends o r k t d) = (o, d, r, k, t)

-- When no program fails, the namespaces can be written and every repository of a kustomization has an
-- address, the apply step succeeds and leaves nothing of its lists out: kubectl reads one manifest
-- with all the namespaces, if there are some, helm gets every release, kubectl every kustomization of
-- a git repository and kustomize every one of an OCI repository, each once and in the order of the
-- resources.
pub apply_plan_complete :
    (answers : Answers) (marshal : Fields → Option String) (plan : Plan)
    (succeeds : (calls : List Call) (call : Call)
      → (output : String) × (answers calls call ≡ some output))
    → all_written marshal plan.namespaces ≡ true
    → all_have_url plan.git_kustomizations ≡ true
    → ((apply_plan answers marshal plan []).0 ≡ ok done)
      × (manifests (apply_plan answers marshal plan []).1 ≡ manifests_of marshal plan.namespaces)
      × (released (apply_plan answers marshal plan []).1 ≡ plan.helm_releases)
      × (kustomized (apply_plan answers marshal plan []).1 ≡ plan.kustomizations)
      × (targets (apply_plan answers marshal plan []).1 ≡ targets_of plan.git_kustomizations)
apply_plan_complete answers marshal plan succeeds h u =
    Ends-parts (plan-Ends answers succeeds marshal plan h u)
