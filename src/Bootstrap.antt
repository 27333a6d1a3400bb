-- ===== src/Bootstrap.antt =====
-- cli/pkg/cmd/kube/kubeBootstrap.go: how a cluster starts until flux takes over. The resources that a
-- chart renders are JSON objects; this file has the reads of them, and the errors of the command.
pub mod Values
pub mod Merged
pub mod Commands
pub mod Plan
pub mod Apply
pub mod Render
pub mod Ordered
pub mod Complete
pub mod Remote
pub mod Owned
pub mod Marked
use becloudless.Prelude.{
  String, Bool, true, false, ◌&&◌, Option, none, some, List, [], ◌∷◌, ◌==◌, if◌then◌else◌, Outcome,
}
use becloudless.Json.{
  Value, null, bool, num, str, obj, arr, Fields, Items, get, as_obj, as_str, or_empty,
}

-- `[]map[string]any`: the resources of a manifest
abbrev pub Docs : Type 0
Docs = List Fields

-- the errors, with what identifies their cause
pub data Error : Type 0 where
  no_cluster : Error
  release_unreadable : String → Error
  release_malformed : String → Error
  not_embedded : Error
  chart_failed : String → Error
  no_app_in_group : String → Error
  render_failed : String → Error
  manifest_malformed : Error
  only_config_maps : String → String → Error
  config_map_missing : String → String → Error
  values_malformed : String → String → Error
  kubeconfig_malformed : Error
  repository_missing : String → String → String → Error
  repository_without_url : Error
  marshal_failed : Error
  write_failed : String → Error
  command_failed : List String → Error
  no_account : String → Error

abbrev pub Result : Type 0 → Type 0
Result A = Outcome Error A

-- one step of `nestedValue`: what is not a map has no keys
abbrev pub get_in : Option Value → String → Option Value
get_in (some (obj m)) key = get key m
get_in (some null) key = none
get_in (some (bool b)) key = none
get_in (some (num n)) key = none
get_in (some (str s)) key = none
get_in (some (arr l)) key = none
get_in none key = none

unfoldable pub nested : Option Value → List String → Option Value
nested current [] = current
nested current (key ∷ keys) = nested (get_in current key) keys

-- `nestedValue`
abbrev pub nested_value : Fields → List String → Option Value
nested_value doc keys = nested (some (obj doc)) keys

-- `text, _ := nestedValue(...).(string)`
abbrev pub nested_text : Fields → List String → String
nested_text doc keys = or_empty (as_str (nested_value doc keys))

abbrev pub or_fallback : Option Value → Value → Value
or_fallback none fallback = fallback
or_fallback (some null) fallback = fallback
or_fallback (some v) fallback = v

-- `nestedValueOr`: a null is a nil, so it falls back too
unfoldable pub nested_value_or : Fields → Value → List String → Value
nested_value_or doc fallback keys = or_fallback (nested_value doc keys) fallback

-- `value == text`, of an `any` with a string
abbrev pub equals_text : Option Value → String → Bool
equals_text none s = false
equals_text (some null) s = false
equals_text (some (bool b)) s = false
equals_text (some (num n)) s = false
equals_text (some (str t)) s = t == s
equals_text (some (obj m)) s = false
equals_text (some (arr l)) s = false

abbrev pub has_kind : Fields → String → Bool
has_kind doc kind = equals_text (get "kind" doc) kind

abbrev pub has_name : Fields → String → Bool
has_name doc name = equals_text (nested_value doc ("metadata" ∷ "name" ∷ [])) name

abbrev pub in_namespace : Fields → String → Bool
in_namespace doc namespace =
    equals_text (nested_value doc ("metadata" ∷ "namespace" ∷ [])) namespace

unfoldable pub find_doc : Docs → String → String → Option Fields
find_doc [] kind name = none
find_doc (doc ∷ docs) kind name =
    if has_kind doc kind && has_name doc name then some doc else find_doc docs kind name

-- `findNamespace`
unfoldable pub find_namespace : Docs → String → Option Fields
unfolding find_doc
find_namespace docs name = find_doc docs "Namespace" name

unfoldable pub find_doc_in_namespace : Docs → String → String → String → Option Fields
find_doc_in_namespace [] kind name namespace = none
find_doc_in_namespace (doc ∷ docs) kind name namespace =
    if has_kind doc kind && has_name doc name && in_namespace doc namespace
    then some doc
    else find_doc_in_namespace docs kind name namespace
