-- ===== src/Bootstrap/Marked.antt =====
-- Which resources `gitRepositoryDocs` of kubeBootstrap.go hands over, and their marks.
use becloudless.Prelude.{
  String, Bool, true, ◌&&◌, eq_iff, eq_refl, Option, none, some, List, [], ◌∷◌, ◌++◌, map, ◌≡◌,
  refl, sym, subst, ap, ◌∙◌, arith, contains, Bool-cases, inl, inr,
}
use becloudless.Json.{
  Value, null, bool, num, arr, str, obj, Fields, get, as_obj, or_end, as_str, or_empty,
}
use becloudless.Json.Laws.{get-set}
use becloudless.Flux.{Metadata}
use becloudless.Bootstrap.{
  Docs, nested, get_in, has_kind, has_name, equals_text, nested_value, nested_text, find_doc,
  find_namespace,
}
use becloudless.Bootstrap.Owned.{
  AppsHelmRelease, filter_docs, is_git_repository, repository_namespaces, is_namespace_of,
  mark_metadata, mark_owned, apps_service_account_docs, handed_over, git_repository_docs,
  with_bindings, is_account, is_binding,
}

label : Fields → String → Option Value
unfolding nested
label doc key = nested_value doc ("metadata" ∷ "labels" ∷ key ∷ [])

annotation : Fields → String → Option Value
unfolding nested
annotation doc key = nested_value doc ("metadata" ∷ "annotations" ∷ key ∷ [])

-- The marks that helm looks for when it adopts a resource.
unfoldable pub is_owned_by : Metadata → Fields → Bool
unfolding label annotation
is_owned_by release doc =
    equals_text (label doc "app.kubernetes.io/managed-by") "Helm"
    && equals_text (annotation doc "meta.helm.sh/release-name") release.name
    && equals_text (annotation doc "meta.helm.sh/release-namespace") release.namespace

unfoldable pub all_docs : (Fields → Bool) → Docs → Bool
all_docs test [] = true
all_docs test (doc ∷ docs) = test doc && all_docs test docs

marked_metadata :
    (release : Metadata) (metadata : Fields)
    → (equals_text
          (get_in (get "labels" (mark_metadata release metadata)) "app.kubernetes.io/managed-by")
          "Helm"
        && equals_text
            (get_in
              (get "annotations" (mark_metadata release metadata))
              "meta.helm.sh/release-name")
            release.name
        && equals_text
            (get_in
              (get "annotations" (mark_metadata release metadata))
              "meta.helm.sh/release-namespace")
            release.namespace)
      ≡ true
unfolding mark_metadata
marked_metadata release metadata = simp (get-set, eq_refl)

pub mark_owned-is_owned_by :
    (release : Metadata) (doc : Fields) → is_owned_by release (mark_owned release doc) ≡ true
unfolding is_owned_by mark_owned mark_metadata nested label annotation
mark_owned-is_owned_by release doc =
    rw
      (get-set "metadata" "metadata"
        (obj (mark_metadata release (or_end (as_obj (get "metadata" doc))))) doc)
      (marked_metadata release (or_end (as_obj (get "metadata" doc))))

pub kind-mark_owned :
    (release : Metadata) (doc : Fields) (kind : String)
    → has_kind (mark_owned release doc) kind ≡ has_kind doc kind
unfolding mark_owned
kind-mark_owned release doc kind = simp get-set

-- Reading a key of what is no map is reading it of the empty one.
get_in-or_end : (o : Option Value) (key : String) → get key (or_end (as_obj o)) ≡ get_in o key
unfolding get
get_in-or_end none key = refl
get_in-or_end (some null) key = refl
get_in-or_end (some (bool b)) key = refl
get_in-or_end (some (num n)) key = refl
get_in-or_end (some (str s)) key = refl
get_in-or_end (some (obj m)) key = refl
get_in-or_end (some (arr l)) key = refl

pub name-mark_owned :
    (release : Metadata) (doc : Fields) (name : String)
    → has_name (mark_owned release doc) name ≡ has_name doc name
unfolding mark_owned mark_metadata nested
name-mark_owned release doc name = simp (get-set, get_in-or_end)

filter_docs-append :
    (test : Fields → Bool) (l m : Docs)
    → filter_docs test (l ++ m) ≡ filter_docs test l ++ filter_docs test m
unfolding filter_docs
filter_docs-append test [] m = refl
filter_docs-append test (doc ∷ l) m = elim (Bool-cases (test doc)) [
  | inl e ↦ rw (e, filter_docs-append test l m)
  | inr e ↦ rw (e, filter_docs-append test l m)
]

all_docs-marked :
    (release : Metadata) (docs : Docs)
    → all_docs (is_owned_by release) (map (mark_owned release) docs) ≡ true
unfolding all_docs
all_docs-marked release [] = refl
all_docs-marked release (doc ∷ docs) =
    ground (arith, mark_owned-is_owned_by release doc, all_docs-marked release docs)

-- Every resource that is handed over carries the marks of the helm release that adopts it.
pub git_repository_docs-is_owned_by :
    (docs : Docs) (hr : AppsHelmRelease)
    → all_docs (is_owned_by hr.metadata) (git_repository_docs docs hr) ≡ true
unfolding git_repository_docs
git_repository_docs-is_owned_by docs hr = all_docs-marked hr.metadata (handed_over docs hr)

-- the first of two answers
abbrev pub or_doc : Option Fields → Option Fields → Option Fields
or_doc none more = more
or_doc (some doc) more = some doc

find_doc-append :
    (kind name : String) (l m : Docs)
    → find_doc (l ++ m) kind name ≡ or_doc (find_doc l kind name) (find_doc m kind name)
unfolding find_doc
find_doc-append kind name [] m = refl
find_doc-append kind name (doc ∷ l) m = elim (Bool-cases (has_kind doc kind && has_name doc name)) [
  | inl e ↦ rw e
  | inr e ↦ rw e (find_doc-append kind name l m)
]

abbrev pub map_doc : (Fields → Fields) → Option Fields → Option Fields
map_doc f none = none
map_doc f (some doc) = some (f doc)

find_doc-mark_owned :
    (release : Metadata) (kind name : String) (docs : Docs)
    → find_doc (map (mark_owned release) docs) kind name
      ≡ map_doc (mark_owned release) (find_doc docs kind name)
unfolding find_doc
find_doc-mark_owned release kind name [] = refl
find_doc-mark_owned release kind name (doc ∷ docs) =
    rw (kind-mark_owned release doc kind, name-mark_owned release doc name)
      (elim (Bool-cases (has_kind doc kind && has_name doc name)) [
        | inl e ↦ rw e
        | inr e ↦ rw e (find_doc-mark_owned release kind name docs)
      ])

equals_text-eq : (o : Option Value) (s : String) → equals_text o s ≡ true → or_empty (as_str o) ≡ s
equals_text-eq none s h = cc
equals_text-eq (some null) s h = cc
equals_text-eq (some (bool b)) s h = cc
equals_text-eq (some (num n)) s h = cc
equals_text-eq (some (str t)) s h = (eq_iff t s).0 h
equals_text-eq (some (obj m)) s h = cc
equals_text-eq (some (arr l)) s h = cc

filter_docs-none :
    (test : Fields → Bool) (kind name : String) (docs : Docs)
    → find_doc docs kind name ≡ none
    → find_doc (filter_docs test docs) kind name ≡ none
unfolding find_doc filter_docs
filter_docs-none test kind name [] h = refl
filter_docs-none test kind name (doc ∷ docs) h =
    elim (Bool-cases (has_kind doc kind && has_name doc name)) [
      | inl e ↦ cc (rw e at h)
      | inr e ↦ elim (Bool-cases (test doc)) [
        | inl t ↦ rw (t, e) (filter_docs-none test kind name docs (rw e at h))
        | inr t ↦ rw t (filter_docs-none test kind name docs (rw e at h))
      ]
    ]

with_bindings-none :
    (kind name : String) (accounts bindings : Docs)
    → find_doc accounts kind name ≡ none
    → find_doc bindings kind name ≡ none
    → find_doc (with_bindings accounts bindings) kind name ≡ none
unfolding find_doc
with_bindings-none kind name [] bindings h k = refl
with_bindings-none kind name (doc ∷ accounts) bindings h k =
    rw (find_doc-append kind name (doc ∷ accounts) bindings, h) k

takes_namespace :
    (namespaces : List String) (doc : Fields) (name : String)
    → has_kind doc "Namespace" ≡ true
    → has_name doc name ≡ true
    → contains namespaces name ≡ true
    → is_namespace_of namespaces doc ≡ true
takes_namespace namespaces doc name k n c = rw k (
    subst (λ x. contains namespaces x ≡ true)
      (sym (equals_text-eq (nested_value doc ("metadata" ∷ "name" ∷ [])) name n)) c)

or_doc-none : (o m : Option Fields) → (o ≡ none → m ≡ none) → or_doc o m ≡ o
or_doc-none none m h = h refl
or_doc-none (some doc) m h = refl

filter_docs-find_namespace :
    (namespaces : List String) (name : String) (docs : Docs)
    → contains namespaces name ≡ true
    → find_doc (filter_docs (is_namespace_of namespaces) docs) "Namespace" name
      ≡ find_doc docs "Namespace" name
unfolding find_doc filter_docs
filter_docs-find_namespace namespaces name [] c = refl
filter_docs-find_namespace namespaces name (doc ∷ docs) c =
    elim (Bool-cases (has_kind doc "Namespace")) [
      | inr k ↦ rw k (filter_docs-find_namespace namespaces name docs c)
      | inl k ↦ elim (Bool-cases (has_name doc name)) [
        | inl n ↦ rw (takes_namespace namespaces doc name k n c, k, n)
        | inr n ↦
            rw (k, n)
              (elim (Bool-cases
                (contains namespaces (nested_text doc ("metadata" ∷ "name" ∷ [])))) [
                  | inl d ↦ rw (d, k, n) (filter_docs-find_namespace namespaces name docs c)
                  | inr d ↦ rw d (filter_docs-find_namespace namespaces name docs c)
                ])
      ]
    ]

-- For each namespace that a git repository of the resources names, the handed over resources have
-- the namespace resource exactly when the resources have it: the first of them, marked.
pub find_namespace-git_repository_docs :
    (docs : Docs) (hr : AppsHelmRelease) (name : String)
    → contains (repository_namespaces docs) name ≡ true
    → find_namespace (git_repository_docs docs hr) name
      ≡ map_doc (mark_owned hr.metadata) (find_namespace docs name)
unfolding find_namespace git_repository_docs handed_over apps_service_account_docs
find_namespace-git_repository_docs docs hr name c =
    find_doc-mark_owned hr.metadata "Namespace" name (handed_over docs hr)
    ∙ ap (map_doc (mark_owned hr.metadata)) (
        find_doc-append "Namespace" name
          (filter_docs (is_namespace_of (repository_namespaces docs)) docs)
          (filter_docs is_git_repository docs ++ apps_service_account_docs docs hr)
        ∙ rw (filter_docs-find_namespace (repository_namespaces docs) name docs c) (
            or_doc-none (find_doc docs "Namespace" name) _ (λ h.
              find_doc-append "Namespace" name (filter_docs is_git_repository docs)
                (apps_service_account_docs docs hr)
              ∙ rw (filter_docs-none is_git_repository "Namespace" name docs h) (
                  with_bindings-none "Namespace" name _ _
                    (filter_docs-none (is_account hr) "Namespace" name docs h)
                    (filter_docs-none (is_binding hr) "Namespace" name docs h)))))
