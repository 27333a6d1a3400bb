-- ===== src/Mutations/Refs.antt =====
-- Fields that accept a reference to another resource:
-- kube/charts/base/templates/resources/mutations/refs/refs.go.
use becloudless.Prelude.{
  ℕ, String, Bool, true, false, ◌&&◌, ◌||◌, Option, none, some, List, [], ◌∷◌, ◌++◌, ◌&◌,
  if◌then◌else◌, join, quote, sort_strings, Dict, lookup, map,
}
use becloudless.Json.{Value, str, arr, obj, Fields, end, field, nil, cons, get, set, has, as_obj}
use becloudless.Mutations.{
  Result, ok, err, ◌>>=◌, refs_unknown_projection, refs_kinds_required, refs_not_in_schema,
  refs_not_a_string, MutationResult, Mutation, or_null, schema_type_includes,
}
use becloudless.Mutations.ItemFields.{names}
use becloudless.Mutations.EditedNodes.{
  Found, found_nodes, found_at, edit_nodes, is_place_of, last_found,
}

-- `Projections`: whether a reference becomes an object
unfoldable pub projections : Dict Bool
projections =
    ("name", false)
    ∷ ("secretName", false)
    ∷ ("gatewayRef", true)
    ∷ ("roleRef", true)
    ∷ ("serviceAccountSubject", true)
    ∷ ("podSelector", true)
    ∷ ("helmReleaseRef", true)
    ∷ ("secretStoreRef", true)
    ∷ []

-- `Ref`
pub record Ref : Type 0 where
  pub kinds : List String
  pub as_projection : String

-- `refNode`
abbrev pub ref_node : Value
ref_node = obj (field "type" (str "string") (field "pattern" (str "^ref:.+$") end))

-- `describesValue`
abbrev pub describes_value : Fields → Bool
describes_value node =
    has "type" node || has "properties" node || has "additionalProperties" node || has "items" node

abbrev pub or_ref : Value → Value
or_ref v = obj (field "anyOf" (arr (cons ref_node (cons v nil))) end)

-- `relax`: the description stays on the node
unfoldable pub relax : Fields → Fields
relax node =
    let alternatives = arr (cons ref_node (cons (obj node) nil)) in
    elim (get "description" node) [
      | none ↦ field "anyOf" alternatives end
      | some description ↦ field "description" description (field "anyOf" alternatives end)
    ]

abbrev pub relax_entry : Fields → Option Fields → Fields
relax_entry node none = relax node
relax_entry node (some entry) =
    set "additionalProperties" (or_ref (obj entry))
      (set "items" ref_node (set "type" (arr (cons (str "object") (cons (str "array") nil))) node))

abbrev pub relax_items : Fields → Option Fields → Fields
relax_items node none = relax_entry node (as_obj (get "additionalProperties" node))
relax_items node (some items) =
    if schema_type_includes (or_null (get "type" node)) "array"
    then set "items" (or_ref (obj items)) node
    else relax_entry node (as_obj (get "additionalProperties" node))

-- `relaxObject`
unfoldable pub relax_object : Fields → Fields
unfolding relax set
relax_object node = relax_items node (as_obj (get "items" node))

-- what is to be changed: the places of strings and the places of objects
pub record Edits : Type 0 where
  pub strings : List ℕ
  pub objects : List ℕ

abbrev pub is_string_node : Fields → Bool
is_string_node node = schema_type_includes (or_null (get "type" node)) "string"

unfoldable pub string_places : List Found → List ℕ
string_places [] = []
string_places ((place, node) ∷ nodes) =
    let rest = string_places nodes in if is_string_node node then place ∷ rest else rest

unfoldable pub ref_text : String → Ref → String
unfolding quote join
ref_text path ref =
    quote path
    & (" (dict \"kinds\" (list "
        & (join " " (map quote ref.kinds) & (") \"as\" " & (quote ref.as_projection & ")"))))

abbrev pub string_edits : String → List ℕ → Result Edits
string_edits path [] = err (refs_not_a_string path)
string_edits path (place ∷ places) = ok (record { strings = place ∷ places; objects = [] })

abbrev pub node_edits : String → Bool → List Found → Option Found → Result Edits
node_edits path object nodes none = err (refs_not_in_schema path)
node_edits path true nodes (some (place, node)) = ok (record { strings = []; objects = place ∷ [] })
node_edits path false nodes (some last) = string_edits path (string_places nodes)

abbrev pub check_kinds : String → Ref → Bool → List Found → List String → Result Edits
check_kinds path ref object nodes [] = err (refs_kinds_required path)
check_kinds path ref object nodes (kind ∷ kinds) = node_edits path object nodes (last_found nodes)

-- the checks of the loop's body
unfoldable pub check_ref : String → Ref → List Found → Result Edits
unfolding projections string_places
check_ref path ref nodes = elim (lookup ref.as_projection projections) [
  | none ↦ err (refs_unknown_projection path ref.as_projection)
  | some object ↦ check_kinds path ref object nodes ref.kinds
]

abbrev pub ref_or_empty : Option Ref → Ref
ref_or_empty none = record { kinds = []; as_projection = "" }
ref_or_empty (some ref) = ref

-- `for _, path := range paths`
unfoldable pub refs_of : Dict Ref → Dict (List Found) → List String → Result (Edits × List String)
unfolding check_ref ref_text
refs_of m found [] = ok (record { strings = []; objects = [] }, [])
refs_of m found (path ∷ paths) = do
  edits ← check_ref path (ref_or_empty (lookup path m)) (found_at path found)
  (more, texts) ← refs_of m found paths
  ok (
    record { strings = edits.strings ++ more.strings; objects = edits.objects ++ more.objects },
    ref_text path (ref_or_empty (lookup path m)) ∷ texts,
  )

abbrev pub relax_at : Edits → ℕ → Fields → Fields
relax_at edits place node =
    if is_place_of place edits.objects
    then relax_object node
    else if is_place_of place edits.strings
    then relax node
    else node

abbrev pub with_refs : Fields → Result (Edits × List String) → Result MutationResult
with_refs schema (err e) = err e
with_refs schema (ok (edits, texts)) = ok (record {
  schema = edit_nodes (relax_at edits) schema;
  template_args = ("refs", "(dict " & (join " " texts & ")")) ∷ [];
})

abbrev pub is_ref_path : Dict Ref → String → Bool
is_ref_path m path = elim (lookup path m) [ none ↦ false | some ref ↦ true ]

abbrev pub wanted_ref : Dict Ref → Fields → String → Bool
wanted_ref m node path = is_ref_path m path && describes_value node

-- `Refs.Mutate(schema)`
unfoldable pub refs : Dict Ref → Mutation
unfolding refs_of found_nodes sort_strings names edit_nodes
refs [] schema = ok (record { schema = schema; template_args = [] })
refs (r ∷ m) schema =
    with_refs schema
      (refs_of (r ∷ m) (found_nodes (wanted_ref (r ∷ m)) schema) (sort_strings (names (r ∷ m))))
