-- ===== src/Mutations/ArraysToMaps.antt =====
-- Arrays of objects become maps keyed by an id:
-- kube/charts/base/templates/resources/mutations/arraysToMaps/arraysToMaps.go.
pub mod Converted
use becloudless.Prelude.{
  String, Bool, true, false, not, ◌&&◌, ◌||◌, Option, none, some, List, [], ◌∷◌, ◌++◌, map, ◌==◌,
  ◌&◌, if◌then◌else◌, join, has_suffix, contains, sort_strings, quote,
}
use becloudless.Json.{
  Value, null, bool, num, str, arr, obj, Items, nil, cons, Fields, end, field, get, set, delete,
  has, is_some, as_obj, as_arr, or_end, fields_of,
}
use becloudless.Walk.{Visit, walk_schema_nodes_with_path}
use becloudless.Mutations.{
  Result, ok, err, MutationResult, Mutation, or_null, text_of, schema_type_includes,
  replace_schema_type,
}
use becloudless.Mutations.Conversion.{path_list, as_map, is_array, convert_visit, convert_all}

-- `ArraysToMaps`
pub record ArraysToMaps : Type 0 where
  pub ignore : List String
  pub disabled : Bool

convert_items : Fields → Option Fields → Fields × Bool
convert_items node none = (node, false)
convert_items node (some items) = (as_map (obj items) node, true)

-- `convertArrayNodeToMap(node)`
unfoldable pub convert_array_node_to_map : Fields → Fields × Bool
unfolding convert_items as_map
convert_array_node_to_map node =
    if is_array node then convert_items node (as_obj (get "items" node)) else (node, false)

-- `ArraysToMaps.Mutate(schema)`
unfoldable pub arrays_to_maps : ArraysToMaps → Mutation
unfolding convert_all convert_array_node_to_map
arrays_to_maps m schema =
    if m.disabled
    then ok (record { schema = schema; template_args = ("arrayPaths", "(list )") ∷ [] })
    else convert_all "arrayPaths" (λ path. not (contains m.ignore path)) convert_array_node_to_map
        schema
