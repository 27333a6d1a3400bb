-- ===== src/Mutations/EnvMaps.antt =====
-- The `env` arrays of the containers become maps from the name of a variable to its value:
-- kube/charts/base/templates/resources/mutations/envMaps/envMaps.go.
use becloudless.Prelude.{
  Bool, true, false, ◌&&◌, ◌||◌, Option, none, some, ◌==◌, if◌then◌else◌, has_suffix,
}
use becloudless.Json.{Value, str, arr, obj, nil, cons, Fields, end, field, get, has, as_obj}
use becloudless.Mutations.{Mutation}
use becloudless.Mutations.Conversion.{as_map, is_array, convert_all}

abbrev env_value : Value
env_value = obj (
    field "type" (arr (cons (str "string") (cons (str "number") (cons (str "boolean") nil))))
      (field "description" (str "Value of the environment variable.") end))

-- The entries of the map of variables: a scalar, or what `valueFrom` describes.
abbrev env_entry : Fields → Value
env_entry value_from = obj (field "anyOf" (arr (cons env_value (cons (obj value_from) nil))) end)

convert_env : Fields → Fields → Option Fields → Fields × Bool
convert_env node props none = (node, false)
convert_env node props (some value_from) =
    if has "name" props && has "value" props
    then (as_map (env_entry value_from) node, true)
    else (node, false)

convert_env_props : Fields → Option Fields → Fields × Bool
unfolding convert_env
convert_env_props node none = (node, false)
convert_env_props node (some props) = convert_env node props (as_obj (get "valueFrom" props))

convert_env_items : Fields → Option Fields → Fields × Bool
unfolding convert_env_props
convert_env_items node none = (node, false)
convert_env_items node (some items) = convert_env_props node (as_obj (get "properties" items))

-- `convertEnvNodeToMap(node)`
unfoldable pub convert_env_node_to_map : Fields → Fields × Bool
unfolding convert_env_items as_map
convert_env_node_to_map node =
    if is_array node then convert_env_items node (as_obj (get "items" node)) else (node, false)

-- `EnvMaps.Mutate(schema)`
unfoldable pub env_maps : Mutation
unfolding convert_all convert_env_node_to_map
env_maps =
    convert_all "envPaths" (λ path. path == "env" || has_suffix path ".env") convert_env_node_to_map
