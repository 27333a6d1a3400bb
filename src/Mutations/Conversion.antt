-- ===== src/Mutations/Conversion.antt =====
-- What the conversions of arrays into maps share
-- (kube/charts/base/templates/resources/mutations/arraysToMaps/arraysToMaps.go, envMaps/envMaps.go
-- and portMaps/portMaps.go): how an array node becomes a map, and the report of the paths.
pub mod Children
use becloudless.Prelude.{
  String, Bool, true, false, not, ◌&&◌, ◌||◌, Option, none, some, List, [], ◌∷◌, ◌++◌, map, ◌==◌,
  ◌&◌, if◌then◌else◌, join, has_suffix, contains, sort_strings, quote,
}
use becloudless.Json.{
  Value, null, bool, num, str, arr, obj, Items, nil, cons, Fields, end, field, get, set, delete,
  has, is_some, as_obj, as_arr, or_end, fields_of,
}
use becloudless.Walk.{Visit, walk_schema_nodes_with_path}
use becloudless.Mutations.{
  Result, ok, err, MutationResult, Mutation, or_null, text_of, schema_type_includes,
  replace_schema_type,
}

-- The list of the reported paths, as a template expression.
unfoldable pub path_list : List String → String
path_list paths = "(list " & join " " (map quote (sort_strings paths)) & ")"

-- The keywords that an array node loses when it becomes a map.
unfoldable pub delete_array_keywords : Fields → Fields
delete_array_keywords node = delete "x-kubernetes-list-map-keys" (
    delete "x-kubernetes-list-type"
      (delete "uniqueItems" (delete "maxItems" (delete "minItems" (delete "items" node)))))

-- A node as a map whose entries have the schema `entry`.
unfoldable pub as_map : Value → Fields → Fields
unfolding delete_array_keywords
as_map entry node = delete_array_keywords (
    set "additionalProperties" entry
      (set "type" (replace_schema_type (or_null (get "type" node)) "array" "object") node))

abbrev pub is_array : Fields → Bool
is_array node = schema_type_includes (or_null (get "type" node)) "array"

-- The visit of a conversion: it keeps the list of the paths that were converted.
unfoldable pub convert_visit : (String → Bool) → (Fields → Fields × Bool) → Visit (List String)
convert_visit selected convert node path converted =
    if selected path
    then (let (node', done) = convert node in
        (node', if done then converted ++ path ∷ [] else converted))
    else (node, converted)

-- Converts the selected nodes, and reports their paths under `arg`.
unfoldable pub convert_all : String → (String → Bool) → (Fields → Fields × Bool) → Mutation
unfolding convert_visit path_list
convert_all arg selected convert schema =
    let (v, converted) =
      walk_schema_nodes_with_path (convert_visit selected convert) "" (obj schema) [] in
    ok (record { schema = fields_of v; template_args = (arg, path_list converted) ∷ [] })
