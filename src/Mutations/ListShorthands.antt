-- ===== src/Mutations/ListShorthands.antt =====
-- Maps that can be given as a list of scalars:
-- kube/charts/base/templates/resources/mutations/listShorthands/listShorthands.go.
use becloudless.Prelude.{
  ℕ, String, Bool, true, false, ◌&&◌, ◌||◌, Option, none, some, List, [], ◌∷◌, ◌==◌, ◌&◌,
  if◌then◌else◌, join, quote, sort_strings, Dict, lookup,
}
use becloudless.Json.{Value, str, arr, obj, Fields, end, field, nil, cons, get, set, as_obj, or_end}
use becloudless.Mutations.{
  Result, ok, err, ◌>>=◌, list_shorthands_not_a_map, list_shorthands_required,
  list_shorthands_no_property, MutationResult, Mutation,
}
use becloudless.Mutations.ItemFields.{names}
use becloudless.Mutations.EditedNodes.{
  Found, found_nodes, found_at, edit_nodes, is_place_of, last_found,
}

-- `Shorthand`
pub record Shorthand : Type 0 where
  pub key : String
  pub entry_field : String

abbrev pub is_map_node : Fields → Bool
is_map_node node = elim (as_obj (get "additionalProperties" node)) [
  | none ↦ false
  | some entry ↦ true
]

abbrev pub is_configured : Dict Shorthand → String → Bool
is_configured m path = elim (lookup path m) [ none ↦ false | some shorthand ↦ true ]

abbrev pub wanted_map : Dict Shorthand → Fields → String → Bool
wanted_map m node path = is_configured m path && is_map_node node

abbrev pub has_entry_field : Fields → String → Bool
has_entry_field node name =
    elim (as_obj (
      get name
        (or_end (as_obj (get "properties" (or_end (as_obj (get "additionalProperties" node)))))))) [
          | none ↦ false
          | some prop ↦ true
        ]

abbrev pub shorthand_or_empty : Option Shorthand → Shorthand
shorthand_or_empty none = record { key = ""; entry_field = "" }
shorthand_or_empty (some shorthand) = shorthand

unfoldable pub shorthand_text : String → Shorthand → String
unfolding quote
shorthand_text path shorthand =
    quote path
    & (" (dict \"key\" "
        & (quote shorthand.key & (" \"field\" " & (quote shorthand.entry_field & ")"))))

-- the checks of the loop's body, and the place of the node that it changes
unfoldable pub check_shorthand : String → Shorthand → Option Found → Result (ℕ × String)
unfolding shorthand_text
check_shorthand path shorthand none = err (list_shorthands_not_a_map path)
check_shorthand path shorthand (some (place, node)) =
    if shorthand.key == "" || shorthand.entry_field == ""
    then err (list_shorthands_required path)
    else if has_entry_field node shorthand.entry_field
    then ok (place, shorthand_text path shorthand)
    else err (list_shorthands_no_property path shorthand.entry_field)

-- `for _, path := range paths`
unfoldable pub shorthands_of :
    Dict Shorthand → Dict (List Found) → List String → Result (List ℕ × List String)
unfolding check_shorthand
shorthands_of m found [] = ok ([], [])
shorthands_of m found (path ∷ paths) = do
  (place, text) ←
      check_shorthand path (shorthand_or_empty (lookup path m)) (last_found (found_at path found))
  (places, texts) ← shorthands_of m found paths
  ok (place ∷ places, text ∷ texts)

abbrev pub scalar_items : Value
scalar_items = obj (field "type" (arr (cons (str "integer") (cons (str "string") nil))) end)

-- a node that accepts the list too
unfoldable pub accept_list : Fields → Fields
unfolding set
accept_list node =
    set "items" scalar_items (set "type" (arr (cons (str "object") (cons (str "array") nil))) node)

abbrev pub accept_at : List ℕ → ℕ → Fields → Fields
accept_at places place node = if is_place_of place places then accept_list node else node

abbrev pub with_shorthands : Fields → Result (List ℕ × List String) → Result MutationResult
with_shorthands schema (err e) = err e
with_shorthands schema (ok (places, texts)) = ok (record {
  schema = edit_nodes (accept_at places) schema;
  template_args = ("listShorthands", "(dict " & (join " " texts & ")")) ∷ [];
})

-- `ListShorthands.Mutate(schema)`
unfoldable pub list_shorthands : Dict Shorthand → Mutation
unfolding shorthands_of found_nodes sort_strings names edit_nodes
list_shorthands [] schema = ok (record { schema = schema; template_args = [] })
list_shorthands (s ∷ m) schema =
    with_shorthands schema (
      shorthands_of (s ∷ m) (found_nodes (wanted_map (s ∷ m)) schema)
        (sort_strings (names (s ∷ m))))
