-- ===== src/Mutations/PortMaps.antt =====
-- The arrays of named ports become maps from the name of a port to the port:
-- kube/charts/base/templates/resources/mutations/portMaps/portMaps.go.
use becloudless.Prelude.{
  String, Bool, true, false, ◌&&◌, ◌||◌, Option, none, some, ◌==◌, if◌then◌else◌, has_suffix,
}
use becloudless.Json.{
  Value, str, arr, obj, Items, nil, cons, Fields, get, set, delete, has, as_obj, as_arr,
}
use becloudless.Mutations.{Mutation}
use becloudless.Mutations.Conversion.{as_map, is_array, convert_all}

-- `r == name`, for an `any` and a text
abbrev pub is_text : Value → String → Bool
is_text (str s) name = s == name
is_text _ name = false

-- `slices.DeleteFunc(required, func(r any) bool { return r == name })`
unfoldable pub delete_text : String → Items → Items
delete_text name nil = nil
delete_text name (cons r list) =
    let rest = delete_text name list in if is_text r name then rest else cons r rest

drop_required_name : Fields → Option Items → Fields
unfolding delete_text
drop_required_name items none = items
drop_required_name items (some required) = set "required" (arr (delete_text "name" required)) items

convert_port : Fields → Fields → Fields → Fields × Bool
unfolding drop_required_name
convert_port node items props =
    if has "name" props && (has "port" props || has "containerPort" props)
    then (let items' = set "properties" (obj (delete "name" props)) items in
        (as_map (obj (drop_required_name items' (as_arr (get "required" items)))) node, true))
    else (node, false)

convert_port_props : Fields → Fields → Option Fields → Fields × Bool
unfolding convert_port
convert_port_props node items none = (node, false)
convert_port_props node items (some props) = convert_port node items props

convert_port_items : Fields → Option Fields → Fields × Bool
unfolding convert_port_props
convert_port_items node none = (node, false)
convert_port_items node (some items) =
    convert_port_props node items (as_obj (get "properties" items))

-- `convertPortNodeToMap(node)`
unfoldable pub convert_port_node_to_map : Fields → Fields × Bool
unfolding convert_port_items as_map
convert_port_node_to_map node =
    if is_array node then convert_port_items node (as_obj (get "items" node)) else (node, false)

-- `PortMaps.Mutate(schema)`
unfoldable pub port_maps : Mutation
unfolding convert_all convert_port_node_to_map
port_maps =
    convert_all "portPaths" (λ path. path == "ports" || has_suffix path ".ports")
      convert_port_node_to_map
